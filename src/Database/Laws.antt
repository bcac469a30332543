-- ===== src/Database/Laws.antt =====
-- What holds of every transaction, whatever its body.
use filecoin_sealer.Prelude.{◌≡◌, refl, arith, none, ℕ}
use filecoin_sealer.Database.Statements.{Result, ok, err, Env, Db}
use filecoin_sealer.Database.Transaction.{
  Tx, ◌>>=◌, Outcome, committed, uncommitted, aborted, transaction,
}

-- The same tables, at whatever moment.
pub record SameTables (a b : Db) : Type 0 where
  pub infos_same : a.task_infos ≡ b.task_infos
  pub logs_same : a.task_logs ≡ b.task_logs
  pub fails_same : a.task_faileds ≡ b.task_faileds
  pub posts_same : a.post_infos ≡ b.post_infos

abbrev pub IsCommitted : {A : Type 0} → Outcome A → Type 0
IsCommitted (committed a) = Unit
IsCommitted (uncommitted a e) = ⊥
IsCommitted (aborted e) = ⊥

abbrev pub AllOrNothing : {A : Type 0} → Db → Outcome A × Db → Type 0
AllOrNothing db (committed a, db') = Unit
AllOrNothing db (uncommitted a e, db') = SameTables db' db
AllOrNothing db (aborted e, db') = SameTables db' db

pub transaction_atomic :
    {A : Type 0} (env : Env) (body : Tx A) (db : Db) → AllOrNothing db (transaction env body db)
transaction_atomic env body db = ground arith

-- A transaction that committed ran its body to the end, and kept what it wrote.
pub transaction_committed :
    {A : Type 0} (env : Env) (body : Tx A) (db db' : Db) (a : A)
    → transaction env body db ≡ (committed a, db')
    → ((body db).0 ≡ ok a) × SameTables db' (body db).1
transaction_committed env body db db' a h = ground arith

-- The commit of a transaction fails at no moment.
abbrev pub AlwaysCommits : Env → Type 0
AlwaysCommits env = (t : ℕ) → env.commit t ≡ none

abbrev bound : {A B : Type 0} → Result A → Db → (A → Tx B) → Result B × Db
bound r d f = elim r [ ok a ↦ f a d | err e ↦ (err e, d) ]

bind_inversion :
    {A B : Type 0} (r : Result A × Db) (f : A → Tx B) (b : B) (db' : Db)
    → (let (x, d) = r in bound x d f) ≡ (ok b, db')
    → (a : A) × (d : Db) × (r ≡ (ok a, d)) × (f a d ≡ (ok b, db'))
bind_inversion (ok a, d) f b db' h = (a, d, refl, h)
bind_inversion (err e, d) f b db' h = cc

-- A sequence that succeeded: its first part did, and the rest from where that stopped.
pub >>=-eq-ok :
    {A B : Type 0} (m : Tx A) (f : A → Tx B) (b : B) (db db' : Db)
    → (m >>= f) db ≡ (ok b, db')
    → (a : A) × (d : Db) × (m db ≡ (ok a, d)) × (f a d ≡ (ok b, db'))
>>=-eq-ok m f b db db' h = bind_inversion (m db) f b db' h
