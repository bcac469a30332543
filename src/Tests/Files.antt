-- ===== src/Tests/Files.antt =====
-- Tests of the file server, and its properties at concrete inputs: a file system is the list of the
-- paths that exist.
use filecoin_sealer.Prelude.{
  ◌≡◌, refl, Bool, true, false, not, String, List, [], ◌∷◌, some, ℤ, pos, str_eq, Called, got, lost,
  if◌then◌else◌, arith, select,
}
use filecoin_sealer.Tables.{DbTaskInfo, proving, init}
use filecoin_sealer.Miner.{Reply, results}
use filecoin_sealer.Worker.Files.{
  Route, header, body, status_of, look_up, EntryCalls, Stat, directory, send_entries,
  remote_get_sector, FileSystem, del_cache, remote_del_sector,
}
use filecoin_sealer.Worker.Files.Delete.{remote_del_sector-removed}
use filecoin_sealer.Tests.Data.{task}

ready : Unit {0}
unfolding str_eq look_up send_entries remote_get_sector del_cache remote_del_sector
ready = tt

-- Whether a path is in the list, and the list without it.
abbrev pub there : String → List String → Bool
there p [] = false
there p (x ∷ xs) = if str_eq x p then true else there p xs

abbrev pub without : String → List String → List String
without p xs = select (λ x. not (str_eq x p)) xs

without_gone : (p : String) (xs : List String) → there p (without p xs) ≡ false
without_gone p [] = refl
without_gone p (x ∷ xs) = ground (arith, without_gone p xs)

without_adds_none :
    (p q : String) (xs : List String) → there q xs ≡ false → there q (without p xs) ≡ false
without_adds_none p q [] h = refl
without_adds_none p q (x ∷ xs) h = ground (arith, without_adds_none p q xs)

-- The removal of a file that is there.
abbrev pub remove_there : Bool → String → List String → Called (Unit {0}) × List String
remove_there true p s = (got tt, without p s)
remove_there false p s = (lost "no such file", s)

removed_sound :
    (b : Bool) (p : String) (s : List String)
    → (remove_there b p s).0 ≡ got tt
    → there p (remove_there b p s).1 ≡ false
removed_sound true p s h = without_gone p s
removed_sound false p s h = cc

removed_missing :
    (b : Bool) (p : String) (s : List String)
    → b ≡ false
    → (e : String) × ((remove_there b p s).0 ≡ lost e)
removed_missing true p s h = absurd (cc h)
removed_missing false p s h = ("no such file", refl)

path_list : FileSystem (List String)
path_list = record {
  exists = there;
  remove = λ p s. remove_there (there p s) p s;
  remove_all = λ p s. (got tt, without p s);
  remove_glob = λ p pattern s. (got tt, s);
  remove_sound = λ p s h. removed_sound (there p s) p s h;
  remove_missing = λ p s h. removed_missing (there p s) p s h;
  remove_all_sound = λ p s h. without_gone p s;
  remove_all_adds_none = λ p q s h. without_adds_none p q s h;
}

abbrev row : DbTaskInfo
row = task 4 9 proving init "w1" "s1"

abbrev parse : String → Called ℤ
parse s =
    if str_eq s "9"
    then got (pos 9)
    else if str_eq s "1000"
    then got (pos 1000)
    else lost "invalid syntax"

abbrev query : ℤ → ℤ → Called Reply
query actor sector = got (results (row ∷ []))

abbrev seal_route : Route
seal_route = record { path_type = some "seal"; actor_id = some "1000"; sector_num = some "9" }

abbrev fine : EntryCalls
fine = record {
  info = got tt;
  tar_header = got tt;
  open_file = got tt;
  copy = got tt;
  close = got tt;
}

abbrev broken : EntryCalls
broken = record fine { open_file = lost "permission denied" }

abbrev stat : String → Called Stat
stat path = got (directory (got (fine ∷ broken ∷ fine ∷ [])))

-- The archive of a directory with a file that cannot be read ends there, under the status 200.
broken_archive :
    remote_get_sector parse query stat seal_route ≡ body ∷ body ∷ body ∷ header 500 ∷ []
unfolding ready
broken_archive = refl

no_sector :
    remote_get_sector parse query stat (record seal_route { sector_num = some "x" })
    ≡ header 500 ∷ []
unfolding ready
no_sector = refl

found : look_up parse query seal_route ≡ got ("seal", row)
unfolding ready
found = refl

abbrev disk : List String
disk = "/sealed" ∷ "/cache" ∷ "/other" ∷ []

deleted :
    remote_del_sector path_list parse query seal_route disk
    ≡ (header 200 ∷ body ∷ [], "/other" ∷ [])
unfolding ready path_list
deleted = refl

seen : status_of (remote_del_sector path_list parse query seal_route disk).0 ≡ 200
unfolding ready path_list
seen = refl

remote_del_sector-removed_example :
    (path_list.exists "/sealed" (remote_del_sector path_list parse query seal_route disk).1 ≡ false)
    × (path_list.exists "/cache" (remote_del_sector path_list parse query seal_route disk).1
        ≡ false)
remote_del_sector-removed_example =
    remote_del_sector-removed path_list parse query seal_route row disk found seen

sealed_gone : path_list.exists "/sealed" ("/cache" ∷ []) ≡ false
unfolding ready path_list
sealed_gone = refl
