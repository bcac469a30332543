-- ===== src/Tables/Same.antt =====
-- Conditions on rows: gorm's `Where(struct)`, which asks equality of the fields that are not zero.
use filecoin_sealer.Prelude.{
  ℕ, ◌≡◌, refl, sym, ap, ◌∙◌, ◌≢◌, ◌⊎◌, str_eq_iff, Bool, true, false, ◌&&◌, ◌||◌, String, List, [],
  ◌∷◌, arith, ℤ, pos, ◌==◌, str_eq, str_eq_refl, eq_ℤ, eq_ℤ_iff, eq_ℤ_refl, and_true, inl, inr,
}
use mathlib.Core.Bool.{false≢true}
use filecoin_sealer.Tables.Stage.{TaskType, other, task_eq, task_eq_refl, is_stage, task_eq→eq}
use filecoin_sealer.Tables.Rows.{DbTaskInfo, DbTaskLog}

unfoldable pub bytes_eq : List ℕ → List ℕ → Bool
bytes_eq [] [] = true
bytes_eq (x ∷ xs) (y ∷ ys) = (x == y) && bytes_eq xs ys
bytes_eq _ _ = false

bytes_eq_refl : (xs : List ℕ) → bytes_eq xs xs ≡ true
unfolding bytes_eq
bytes_eq_refl [] = refl
bytes_eq_refl (x ∷ xs) = ground (arith, bytes_eq_refl xs)

-- The condition that one field of the struct adds: none if the field is the zero value.
unfoldable pub text_asks : String → String → Bool
text_asks want got = str_eq want "" || str_eq want got

unfoldable pub type_asks : TaskType → TaskType → Bool
type_asks want got = task_eq want (other "") || task_eq want got

unfoldable pub int_asks : ℤ → ℤ → Bool
int_asks want got = eq_ℤ want (pos 0) || eq_ℤ want got

unfoldable pub nat_asks : ℕ → ℕ → Bool
nat_asks want got = want == 0 || want == got

unfoldable pub bytes_ask : List ℕ → List ℕ → Bool
bytes_ask want got = bytes_eq want [] || bytes_eq want got

or_cases : (a b : Bool) → (a || b) ≡ true → (a ≡ true) ⊎ (b ≡ true)
or_cases a b h = ground arith

or_right : (a b : Bool) → b ≡ true → (a || b) ≡ true
or_right a b h = ground arith

pub text_asks_refl : (s : String) → text_asks s s ≡ true
unfolding text_asks
text_asks_refl s = or_right _ _ (str_eq_refl s)

pub type_asks_refl : (t : TaskType) → type_asks t t ≡ true
unfolding type_asks
type_asks_refl t = or_right _ _ (task_eq_refl t)

pub int_asks_refl : (a : ℤ) → int_asks a a ≡ true
unfolding int_asks
int_asks_refl a = or_right _ _ (eq_ℤ_refl a)

nat_asks_refl : (a : ℕ) → nat_asks a a ≡ true
unfolding nat_asks
nat_asks_refl a = ground arith

bytes_ask_refl : (xs : List ℕ) → bytes_ask xs xs ≡ true
unfolding bytes_ask
bytes_ask_refl xs = or_right _ _ (bytes_eq_refl xs)

-- The columns that are never blank in a row: its id, and what the struct holds by pointer.
unfoldable pub same_key : DbTaskInfo → DbTaskInfo → Bool
same_key w r =
    int_asks w.id r.id
    && (eq_ℤ w.sector_num r.sector_num
        && (eq_ℤ w.actor_id r.actor_id
            && (eq_ℤ w.state r.state && type_asks w.task_type r.task_type)))

unfoldable pub same_inputs : DbTaskInfo → DbTaskInfo → Bool
same_inputs w r =
    text_asks w.sealer_proof r.sealer_proof
    && (int_asks w.proof_type r.proof_type
        && (text_asks w.piece_str r.piece_str
            && (text_asks w.cache_dir_path r.cache_dir_path
                && (text_asks w.staged_sector_path r.staged_sector_path
                    && text_asks w.sealed_sector_path r.sealed_sector_path))))

unfoldable pub same_owner : DbTaskInfo → DbTaskInfo → Bool
same_owner w r =
    text_asks w.worker_id r.worker_id
    && (text_asks w.host_name r.host_name
        && (text_asks w.worker_listen r.worker_listen && text_asks w.last_req_id r.last_req_id))

unfoldable pub same_outputs : DbTaskInfo → DbTaskInfo → Bool
same_outputs w r =
    bytes_ask w.phase1_output r.phase1_output
    && (text_asks w.comm_d r.comm_d
        && (text_asks w.comm_r r.comm_r
            && (int_asks w.ticket_epoch r.ticket_epoch
                && (text_asks w.ticket_hex r.ticket_hex
                    && (int_asks w.seed_epoch r.seed_epoch
                        && (text_asks w.seed_hex r.seed_hex
                            && (bytes_ask w.c1_out r.c1_out
                                && (bytes_ask w.proof r.proof
                                    && (nat_asks w.deadline_inx r.deadline_inx
                                        && nat_asks w.partition_inx r.partition_inx)))))))))

-- `Where(taskInfo)` for a row that was read from the table.
unfoldable pub same_row : DbTaskInfo → DbTaskInfo → Bool
same_row w r = same_key w r && (same_inputs w r && (same_owner w r && same_outputs w r))

pub same_row_refl : (r : DbTaskInfo) → same_row r r ≡ true
unfolding same_row same_key same_inputs same_owner same_outputs
same_row_refl r =
    simp (eq_ℤ_refl, int_asks_refl, text_asks_refl, type_asks_refl, bytes_ask_refl, nat_asks_refl)

-- `Model(row).Updates` of a row that was read from the table: the primary key.
unfoldable pub keyed_info : DbTaskInfo → DbTaskInfo → Bool
keyed_info w r =
    eq_ℤ w.id r.id
    && (eq_ℤ w.sector_num r.sector_num
        && (eq_ℤ w.actor_id r.actor_id && task_eq w.task_type r.task_type))

pub keyed_info_refl : (r : DbTaskInfo) → keyed_info r r ≡ true
unfolding keyed_info
keyed_info_refl r = simp (eq_ℤ_refl, task_eq_refl)

unfoldable pub keyed_log : DbTaskLog → DbTaskLog → Bool
keyed_log w r =
    eq_ℤ w.id r.id
    && (eq_ℤ w.sector_num r.sector_num
        && (eq_ℤ w.actor_id r.actor_id
            && (task_eq w.task_type r.task_type && str_eq w.req_id r.req_id)))

-- What the condition says of the columns that the miner steers by.
pub same_row→key :
    (w r : DbTaskInfo)
    → same_row w r ≡ true
    → (w.sector_num ≡ r.sector_num) × (w.actor_id ≡ r.actor_id) × (w.state ≡ r.state)
unfolding same_row same_key
same_row→key w r h =
    let k = (and_true _ _ h).0 in
    let rest = (and_true _ _ k).1 in
    let rest' = (and_true _ _ rest).1 in
    (
      (eq_ℤ_iff _ _).0 (and_true _ _ rest).0,
      (eq_ℤ_iff _ _).0 (and_true _ _ rest').0,
      (eq_ℤ_iff _ _).0 (and_true _ _ (and_true _ _ rest').1).0,
    )

-- A field that is not blank asks for itself.
pub type_asks_stage : (t u : TaskType) → is_stage t ≡ true → type_asks t u ≡ true → u ≡ t
unfolding type_asks
type_asks_stage t u stage h = elim (or_cases _ _ h) [
  | inl blank ↦ absurd (false≢true (sym (ap is_stage (task_eq→eq t (other "") blank)) ∙ stage))
  | inr same ↦ sym (task_eq→eq t u same)
]

pub text_asks_named : (s u : String) → s ≢ "" → text_asks s u ≡ true → u ≡ s
unfolding text_asks
text_asks_named s u named h = elim (or_cases _ _ h) [
  | inl blank ↦ absurd (named ((str_eq_iff s "").0 blank))
  | inr same ↦ sym ((str_eq_iff s u).0 same)
]
