-- ===== src/Database/Memory.antt =====
-- An engine that keeps its tables in memory and never fails: the assumptions can be met.
use filecoin_sealer.Prelude.{
  ◌≡◌, Bool, true, false, List, [], ◌∷◌, ◌++◌, none, arith, All, Member, select, map_if,
  if◌then◌else◌,
}
use filecoin_sealer.Database.Statements.{Result, ok, err, not_found, Engine, Env}

pub ok_injective : {A : Type 0} (x y : A) → ok x ≡ ok y → y ≡ x
ok_injective x y h = cc

module _ {Row : Type 0} where
  abbrev pub scan : (Row → Bool) → List Row → Result Row
  scan p [] = err not_found
  scan p (r ∷ rows) = if p r then ok r else scan p rows

  pub scan_sound :
      (p : Row → Bool) (rows : List Row) (r : Row)
      → scan p rows ≡ ok r
      → Member r rows × (p r ≡ true)
  scan_sound p [] r h = cc
  scan_sound p (x ∷ rows) r h = ground (arith, scan_sound p rows r)

  pub scan_missing :
      (p : Row → Bool) (rows : List Row) → scan p rows ≡ err not_found → All (λ r. p r ≡ false) rows
  scan_missing p [] h = tt
  scan_missing p (x ∷ rows) h = ground (arith, scan_missing p rows)

  abbrev pub memory : Engine Row
  memory = record {
    first = λ t p rows. scan p rows;
    find = λ t p rows. ok (select p rows);
    update = λ t p f rows. ok (map_if p f rows);
    insert = λ t r rows. ok (rows ++ r ∷ []);
    fill = λ t r. r;
    first_sound = λ t p rows r h. scan_sound p rows r h;
    first_missing = λ t p rows h. scan_missing p rows h;
    find_sound = λ t p rows rs h. ok_injective (select p rows) rs h;
    update_sound = λ t p f rows rows' h. ok_injective (map_if p f rows) rows' h;
    insert_sound = λ t r rows rows' h. ok_injective (rows ++ r ∷ []) rows' h;
  }

abbrev pub memory_env : Env
memory_env = record {
  infos = memory;
  logs = memory;
  fails = memory;
  posts = memory;
  commit = λ t. none;
  marshal = λ r. r.comm_string;
}
