-- ===== src/Tests/Query.antt =====
-- Tests of the hand-out, and its properties at the small installation.
use filecoin_sealer.Prelude.{
  ◌≡◌, refl, ◌≢◌, inl, inr, true, List, [], ◌∷◌, some, arith, ◌⊎◌, Bool, Bool-cases, map_if, ◌++◌,
}
use filecoin_sealer.Tables.{pc1, pc2, DbTaskInfo, DbTaskLog}
use filecoin_sealer.Database.{Db, not_found, failed, Env, memory, memory_env, scan, ok, err}
use filecoin_sealer.Miner.{results, refused}
use filecoin_sealer.Miner.Query.{query_task, wanted, is_local}
use filecoin_sealer.Miner.Query.Shown.{IsShown}
use filecoin_sealer.Miner.Query.Handout.{UniqueIds, query_task-IsShown, query_task_exclusive}
use filecoin_sealer.Miner.Query.Liveness.{Healthy, query_task_answers}
use filecoin_sealer.Tests.Data.{evaluated, fresh, second, sealed, start, request, any}

abbrev after_one : Db
after_one = (query_task memory_env (request pc1 any "w1" "s1") start).1

abbrev after_two : Db
after_two = (query_task memory_env (request pc1 any "w2" "s2") after_one).1

first_answer : (query_task memory_env (request pc1 any "w1" "s1") start).0 ≡ results (fresh ∷ [])
unfolding evaluated
first_answer = refl

second_answer :
    (query_task memory_env (request pc1 any "w2" "s2") after_one).0 ≡ results (second ∷ [])
unfolding evaluated
second_answer = refl

first_handout :
    query_task memory_env (request pc1 any "w1" "s1") start ≡ (results (fresh ∷ []), after_one)
unfolding evaluated
first_handout = refl

second_handout :
    query_task memory_env (request pc1 any "w2" "s2") after_one ≡ (results (second ∷ []), after_two)
unfolding evaluated
second_handout = refl

-- The third worker does not hold the sector's files.
foreign_worker : (query_task memory_env (request pc2 any "w2" "s3") start).0 ≡ refused not_found
unfolding evaluated
foreign_worker = refl

query_task-IsShown_example : IsShown memory_env (request pc1 any "w1" "s1") start fresh after_one
query_task-IsShown_example =
    query_task-IsShown memory_env (request pc1 any "w1" "s1") start after_one fresh (λ t. refl)
      first_handout

start-UniqueIds : UniqueIds start.task_infos
start-UniqueIds x y mx my e = ground arith

query_task_exclusive_example : second.id ≢ fresh.id
query_task_exclusive_example =
    query_task_exclusive memory_env (request pc1 any "w1" "s1") (request pc1 any "w2" "s2") start
      after_one after_two fresh second (λ t. refl) start-UniqueIds refl first_handout second_handout

refused_answer :
    query_task memory_env (request pc2 any "w2" "s3") start
    ≡ (refused not_found, (query_task memory_env (request pc2 any "w2" "s3") start).1)
unfolding evaluated
refused_answer = refl

-- A database whose commits fail.
abbrev lossy : Env
lossy = record memory_env { commit = λ t. some (failed "lost") }

lossy_handout :
    query_task lossy (request pc1 any "w1" "s1") start
    ≡ (results (fresh ∷ []), (query_task lossy (request pc1 any "w1" "s1") start).1)
unfolding evaluated
lossy_handout = refl

sealed-wanted : wanted (request pc2 any "w1" "s1") sealed ≡ true
unfolding evaluated
sealed-wanted = refl

local : is_local pc2 ≡ true
unfolding evaluated
local = refl

memory-finds :
    {Row : Type 0} (p : Row → Bool) (rows : List Row)
    → ((r : Row) × (scan p rows ≡ ok r)) ⊎ (scan p rows ≡ err not_found)
memory-finds p [] = inr refl
memory-finds p (x ∷ rows) = elim (Bool-cases (p x)) [
  | inl hit ↦ inl (x, rw hit)
  | inr miss ↦ rw miss (memory-finds p rows)
]

pub memory-Healthy : (Row : Type 0) → Healthy (memory {Row = Row})
memory-Healthy Row = record {
  finds = λ t p rows. memory-finds p rows;
  updates = λ t p f rows. (map_if p f rows, refl);
  inserts = λ t r rows. (rows ++ r ∷ [], refl);
}

query_task_answers_example :
    (r : DbTaskInfo) × (db' : Db) × (query_task memory_env (request pc2 any "w1" "s1") start
      ≡ (results (r ∷ []), db'))
query_task_answers_example =
    query_task_answers memory_env (request pc2 any "w1" "s1") start sealed
      (memory-Healthy DbTaskInfo) (memory-Healthy DbTaskLog) (inr (inr (inl refl))) sealed-wanted
