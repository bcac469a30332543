-- ===== src/Worker/Files/Defs.antt =====
-- worker/htttphandle.go: RemoteGetSector, RemoteDelSector and delCache.
use filecoin_sealer.Prelude.{
  ℕ, ◌≡◌, String, Bool, false, List, [], ◌∷◌, Option, none, some, ℤ, str_eq, if◌then◌else◌, Called,
  got, lost, ◌>>=◌,
}
use filecoin_sealer.Tables.{DbTaskInfo}
use filecoin_sealer.Miner.{Reply, results, refused}

-- The variables that the router found in the address.
pub record Route : Type 0 where
  pub path_type : Option String
  pub actor_id : Option String
  pub sector_num : Option String

-- What is written to the client: a status, or a part of the body.
pub data Written : Type 0 where
  header : ℕ → Written
  body : Written

-- The status that the client sees: the first one written, and 200 if the body came first.
abbrev pub status_of : List Written → ℕ
status_of [] = 200
status_of (header n ∷ ws) = n
status_of (body ∷ ws) = 200

abbrev pub or_lost {ℓ} : {A : Type ℓ} → String → Option A → Called A
or_lost e none = lost e
or_lost e (some a) = got a

abbrev pub first_row : Called Reply → Called DbTaskInfo
first_row (lost e) = lost e
first_row (got (refused e)) = lost "qr.Err"
first_row (got (results [])) = lost "len(taskInfos)=0"
first_row (got (results (r ∷ rs))) = got r

-- The checks that both handlers start with: the kind of path, and the sector's row of the miner.
-- `parse` is `strconv.ParseInt`, and `query` is `MinerApi.QueryOnly`.
unfoldable pub look_up :
    (String → Called ℤ) → (ℤ → ℤ → Called Reply) → Route → Called (String × DbTaskInfo)
look_up parse query route = do
  path_type ← or_lost "url param type no found" route.path_type
  actors ← or_lost "url param actorid no found" route.actor_id
  actor ← parse actors
  sectors ← or_lost "url param sectornum no found" route.sector_num
  sector ← parse sectors
  row ← first_row (query actor sector)
  got (path_type, row)

-- The calls for one entry of a directory.
pub record EntryCalls : Type 0 where
  pub info : Called (Unit {0})
  pub tar_header : Called (Unit {0})
  pub open_file : Called (Unit {0})
  pub copy : Called (Unit {0})
  pub close : Called (Unit {0})

-- What the path is.
pub data Stat : Type 0 where
  directory : Called (List EntryCalls) → Stat
  -- Its opening, and the copy of its content.
  file : Called (Unit {0}) → Called (Unit {0}) → Stat

abbrev pub path_of : String → DbTaskInfo → String
path_of path_type r =
    if str_eq path_type "seal"
    then r.sealed_sector_path
    else if str_eq path_type "cache"
    then r.cache_dir_path
    else ""

-- A step that fails writes the status 500 and ends the handler.
abbrev pub or_500 : Called (Unit {0}) → List Written → List Written
or_500 (lost e) ws = header 500 ∷ []
or_500 (got _) ws = ws

-- The entries of the archive. Its headers and contents are parts of the body.
unfoldable pub send_entries : List EntryCalls → List Written
send_entries [] = []
send_entries (c ∷ cs) =
    let rest = send_entries cs in
    or_500 c.info
      (or_500 c.tar_header (body ∷ or_500 c.open_file (body ∷ or_500 c.copy (or_500 c.close rest))))

-- A directory that cannot be read is answered with 500, and an empty archive is sent.
abbrev pub send_path : Stat → List Written
send_path (directory (lost e)) = header 500 ∷ []
send_path (directory (got cs)) = send_entries cs
send_path (file (lost e) copy) = header 500 ∷ []
send_path (file (got _) copy) = header 200 ∷ body ∷ []

abbrev pub get_path : (String → Called Stat) → Called (String × DbTaskInfo) → List Written
get_path stat (lost e) = header 500 ∷ []
get_path stat (got (path_type, r)) = elim (stat (path_of path_type r)) [
  | lost e ↦ header 500 ∷ []
  | got s ↦ send_path s
]

unfoldable pub remote_get_sector :
    (String → Called ℤ) → (ℤ → ℤ → Called Reply) → (String → Called Stat) → Route → List Written
unfolding look_up send_entries
remote_get_sector parse query stat route = get_path stat (look_up parse query route)

-- The file system, as far as deletions rely on it: what a removal leaves, and that a file that does
-- not exist cannot be removed.
pub record FileSystem (S : Type 0) : Type 0 where
  pub exists : String → S → Bool
  -- `os.Remove`
  pub remove : String → S → Called (Unit {0}) × S
  -- `os.RemoveAll`
  pub remove_all : String → S → Called (Unit {0}) × S
  -- `rm -f` of a pattern in a directory
  pub remove_glob : String → String → S → Called (Unit {0}) × S
  pub remove_sound :
      (p : String) (s : S) → (remove p s).0 ≡ got tt → exists p (remove p s).1 ≡ false
  pub remove_missing :
      (p : String) (s : S) → exists p s ≡ false → (e : String) × ((remove p s).0 ≡ lost e)
  pub remove_all_sound :
      (p : String) (s : S) → (remove_all p s).0 ≡ got tt → exists p (remove_all p s).1 ≡ false
  pub remove_all_adds_none :
      (p q : String) (s : S) → exists q s ≡ false → exists q (remove_all p s).1 ≡ false

module _ {S : Type 0} (fs : FileSystem S) where
  -- Two removals, the second if the first succeeds.
  abbrev pub and_then : Called (Unit {0}) × S → (S → Called (Unit {0}) × S) → Called (Unit {0}) × S
  and_then (lost e, s) k = (lost e, s)
  and_then (got _, s) k = k s

  -- `delCache`
  unfoldable pub del_cache : String → S → Called (Unit {0}) × S
  del_cache path s =
      and_then (fs.remove_glob path "sc-02-data-tree-[cd]*" s)
        (λ s'. fs.remove_glob path "sc-02-data-layer-*" s')

  abbrev pub answer_del : Called (Unit {0}) × S → List Written × S
  answer_del (lost e, s) = (header 500 ∷ [], s)
  answer_del (got _, s) = (header 200 ∷ body ∷ [], s)

  abbrev pub del_sector : DbTaskInfo → S → Called (Unit {0}) × S
  del_sector r s =
      and_then (fs.remove r.sealed_sector_path s) (λ s'. fs.remove_all r.cache_dir_path s')

  abbrev pub del_path : Called (String × DbTaskInfo) → S → List Written × S
  del_path (lost e) s = (header 500 ∷ [], s)
  del_path (got (path_type, r)) s =
      if str_eq path_type "cache"
      then answer_del (del_cache r.cache_dir_path s)
      else if str_eq path_type "seal"
      then answer_del (del_sector r s)
      else (header 200 ∷ body ∷ [], s)

  unfoldable pub remote_del_sector :
      (String → Called ℤ) → (ℤ → ℤ → Called Reply) → Route → S → List Written × S
  unfolding look_up del_cache
  remote_del_sector parse query route s = del_path (look_up parse query route) s
