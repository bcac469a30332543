-- ===== src/Window/Deadlines/Rounds.antt =====
-- miner/wdpost.go: the deadlines that winPoStProofsServer makes proofs for.
use filecoin_sealer.Prelude.{
  ℕ, ◌+◌, ◌%◌, ◌<◌, ◌≡◌, refl, sym, ◌==◌, true, false, ◌&&◌, List, [], ◌∷◌, map, String, ℤ, pos,
  eq_ℤ, if◌then◌else◌, Called, got, lost, arith, All, Bool-cases, ◌⊎◌, inl, inr, ap, ◌∙◌,
}
use filecoin_sealer.Window.Data.{MinerPostInfo}
use filecoin_sealer.Window.Deadlines.Defs.{
  PartitionRun, runs_from, win_post_proofs, dead_after, win_post_proofs_server,
}

next_deadline :
    (d i : ℕ)
    → d < 48
    → i ≡ (d + 1) % 48
    → ((d == i) ≡ false) × (i < 48) × (dead_after (pos d) i ≡ pos i)
next_deadline d i l e = elim (Bool-cases (d == 47)) [
  | inl q ↦ ground (arith, q, e)
  | inr q ↦ ground (arith, q, e, l)
]

before_last : (d i : ℕ) → i < d → (i == 0 && d == 47) ≡ false → dead_after (pos d) i ≡ pos d
before_last d i l n = ground (arith, l, n)

module _ {B : Type 0} where
  -- The deadline is the last one's, or the next of the period's 48.
  abbrev pub FollowsOn : ℕ → List (MinerPostInfo B) → Type 0
  FollowsOn d [] = Unit
  FollowsOn d (mpi ∷ rest) =
      ((mpi.di.index ≡ d) ⊎ (mpi.di.index ≡ (d + 1) % 48)) × FollowsOn mpi.di.index rest

  abbrev pub all_runs : MinerPostInfo B → List (PartitionRun B)
  all_runs mpi = runs_from mpi.di mpi.rand 0 mpi.partitions

  -- The answers at which the deadline changes.
  abbrev pub changes : ℕ → List (MinerPostInfo B) → List (MinerPostInfo B)
  changes d [] = []
  changes d (mpi ∷ rest) =
      if d == mpi.di.index then changes mpi.di.index rest else mpi ∷ changes mpi.di.index rest

  -- The answers that came.
  abbrev pub answers : List (Called (MinerPostInfo B)) → List (MinerPostInfo B)
  answers [] = []
  answers (got mpi ∷ os) = mpi ∷ answers os
  answers (lost e ∷ os) = answers os

  no_rounds : (d : ℕ) → win_post_proofs_server {B = B} [] (pos d) ≡ []
  unfolding win_post_proofs_server
  no_rounds d = refl

  same_round :
      (mpi : MinerPostInfo B) (os : List (Called (MinerPostInfo B))) (d : ℕ)
      → (d == mpi.di.index) ≡ true
      → win_post_proofs_server (got mpi ∷ os) (pos d) ≡ win_post_proofs_server os (pos d)
  unfolding win_post_proofs_server win_post_proofs
  same_round mpi os d h = rw (win_post_proofs_server, h)

  new_round :
      (mpi : MinerPostInfo B) (os : List (Called (MinerPostInfo B))) (d : ℤ)
      → eq_ℤ d (pos mpi.di.index) ≡ false
      → win_post_proofs_server (got mpi ∷ os) d
        ≡ all_runs mpi ∷ win_post_proofs_server os (dead_after d mpi.di.index)
  unfolding win_post_proofs_server win_post_proofs
  new_round mpi os d h = rw (win_post_proofs_server, h, h)

  lost_round :
      (e : String) (os : List (Called (MinerPostInfo B))) (d : ℤ)
      → win_post_proofs_server (lost e ∷ os) d ≡ win_post_proofs_server os d
  unfolding win_post_proofs_server win_post_proofs
  lost_round e os d = refl

  -- The miner's loop has done the deadline d of a proving period's 48, and asks the chain again and
  -- again; a call may fail, and each answer is for the same deadline as the one before or for the next.
  -- Then the loop makes proofs for the partitions of exactly the answers at which the deadline
  -- changes, the change from 47 to 0 included.
  pub win_post_proofs_server-changes :
      (os : List (Called (MinerPostInfo B))) (d : ℕ)
      → d < 48
      → FollowsOn d (answers os)
      → win_post_proofs_server os (pos d) ≡ map all_runs (changes d (answers os))
  win_post_proofs_server-changes [] d l f = no_rounds d
  win_post_proofs_server-changes (lost e ∷ os) d l f =
      lost_round e os (pos d) ∙ win_post_proofs_server-changes os d l f
  win_post_proofs_server-changes (got mpi ∷ os) d l (inl e, f) =
      let q : (d == mpi.di.index) ≡ true = ground (arith, e) in
      let kept : changes d (mpi ∷ answers os) ≡ changes mpi.di.index (answers os) = rw q in
      same_round mpi os d q
      ∙ ap (λ x. win_post_proofs_server os (pos x)) (sym e)
      ∙ win_post_proofs_server-changes os mpi.di.index (omega (arith, l, e)) f
      ∙ ap (map all_runs) (sym kept)
  win_post_proofs_server-changes (got mpi ∷ os) d l (inr e, f) =
      let (q, below, after) = next_deadline d mpi.di.index l e in
      let kept : changes d (mpi ∷ answers os) ≡ mpi ∷ changes mpi.di.index (answers os) = rw q in
      new_round mpi os (pos d) q
      ∙ ap (λ x. all_runs mpi ∷ win_post_proofs_server os x) after
      ∙ ap (λ x. all_runs mpi ∷ x) (win_post_proofs_server-changes os mpi.di.index below f)
      ∙ ap (map all_runs) (sym kept)

  -- A round whose deadline is before the one done last, but for 0 after 47.
  abbrev pub IsBefore : ℕ → MinerPostInfo B → Type 0
  IsBefore d mpi = (mpi.di.index < d) × ((mpi.di.index == 0 && d == 47) ≡ false)

  -- When the loop has done the deadline d, and the chain's answers are for earlier deadlines of the
  -- next period (it did not answer in time for the first of them), each round makes the proofs of all
  -- partitions again: the deadline that the loop takes for the last one stays d.
  pub win_post_proofs_server-repeats :
      (mpis : List (MinerPostInfo B)) (d : ℕ)
      → All (IsBefore d) mpis
      → win_post_proofs_server (map got mpis) (pos d) ≡ map all_runs mpis
  win_post_proofs_server-repeats [] d h = no_rounds d
  win_post_proofs_server-repeats (mpi ∷ mpis) d (h, hs) =
      let q : (d == mpi.di.index) ≡ false = ground (arith, h) in
      let stays : dead_after (pos d) mpi.di.index ≡ pos d = before_last d mpi.di.index h.0 h.1 in
      new_round mpi (map got mpis) (pos d) q
      ∙ ap (λ x. all_runs mpi ∷ win_post_proofs_server (map got mpis) x) stays
      ∙ ap (λ x. all_runs mpi ∷ x) (win_post_proofs_server-repeats mpis d hs)
