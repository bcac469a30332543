-- ===== src/Window/Generate/Split.antt =====
-- worker/wdpost.go: a run whose calls succeed splits the sectors that the miner answered into those
-- with a proof and the faults.
use filecoin_sealer.Prelude.{
  ℕ, ◌≡◌, refl, sym, ap, subst, ◌∙◌, ◌==◌, String, Bool, true, false, not, ◌&&◌, ◌||◌, List, [],
  ◌∷◌, Option, none, some, ℤ, arith, Called, got, lost,
}
use filecoin_sealer.Tables.{DbPostInfo}
use filecoin_sealer.Window.Bits.{Bitfields, has}
use filecoin_sealer.Window.Data.{PostTransfer}
use filecoin_sealer.Window.Collect.Gathered.{proved, Genuine}
use filecoin_sealer.Window.Generate.Defs.{
  GenerateCalls, Assignment, Work, to_uint64, masked, sectors_text, row, query_post, work_new,
  private_of, proved_or_fault, listed_rows, sectors_to_prove, challenged, prove_sector,
  prove_sectors,
}
use filecoin_sealer.Window.Generate.Loop.{
  works, proof_or_blank, tries, Done, prove_sector-Done, prove_sectors-Done,
}

-- The miner's answer names the sector.
abbrev pub names : ℕ → List DbPostInfo → Bool
names z [] = false
names z (r ∷ rows) = (z == to_uint64 r.sector_num) || names z rows

module _ {B : Type 0} (bits : Bitfields B) (c : GenerateCalls) where
  has-listed_rows :
      (z : ℕ) (rows : List DbPostInfo) (b : B)
      → has z (bits.elements (listed_rows bits c rows b))
        ≡ (has z (bits.elements b) || names z rows)
  has-listed_rows z [] b = ground arith
  has-listed_rows z (r ∷ rows) b =
      has-listed_rows z rows (bits.set (to_uint64 r.sector_num) b)
      ∙ rw (bits.set_sound (to_uint64 r.sector_num) z b)
          (swap (z == to_uint64 r.sector_num) (has z (bits.elements b)) (names z rows))
    where
      swap : (p q w : Bool) → ((p || q) || w) ≡ (q || (p || w))
      swap p q w = ground arith

  pub listed_rows-names :
      (z : ℕ) (rows : List DbPostInfo)
      → has z (bits.elements (listed_rows bits c rows bits.new)) ≡ names z rows
  listed_rows-names z rows = has-listed_rows z rows bits.new ∙ rw bits.new_sound

  module _ (w : Assignment B) (actor : String) (all : B) (r : DbPostInfo) (rs : List DbPostInfo)
      (rand : List ℕ) (f : ℕ → List ℕ) (pt : ℤ) where
    abbrev pub rows : List DbPostInfo
    rows = r ∷ rs

    -- The calls of the run succeed, but for the proofs of single sectors. All the sectors that the
    -- miner answers, at least one, have the same kind of proof.
    pub record Runs : Type 0 where
      pub address : c.address ≡ got actor
      pub sectors : sectors_to_prove bits c w.partition ≡ got all
      pub answer : query_post c (sectors_text c.format (bits.elements all)) ≡ got (r ∷ rs)
      pub random : masked w.randomness ≡ some rand
      pub decodes :
          (z : ℕ)
          → names z (r ∷ rs) ≡ true
          → (cid : String) × (c.decode (row (r ∷ rs) z).comm_r ≡ got cid)
      pub kinds : (z : ℕ) → names z (r ∷ rs) ≡ true → (row (r ∷ rs) z).proof_type ≡ pt
      pub challenge : c.challenges pt rand (bits.elements all) ≡ got f

    -- The attempt at the proof of a sector.
    abbrev pub attempt : ℕ → Called (List ℕ)
    attempt z = tries bits c (r ∷ rs) rand (bits.elements all) f pt z

    -- The message of the run: without an error, with the sectors of the partition, the sectors with
    -- a proof, their proofs, and the faults.
    pub record Splits (t : PostTransfer B) : Type 0 where
      pub without_error : t.err ≡ ""
      pub all_sectors : t.all_prove_bitfield ≡ all
      pub repo :
          (z : ℕ)
          → has z (bits.elements t.to_prove_bitfield) ≡ (names z (r ∷ rs) && works (attempt z))
      pub faulty :
          (z : ℕ)
          → has z (bits.elements t.fault_bitfield) ≡ (names z (r ∷ rs) && not (works (attempt z)))
      pub covered : (z : ℕ) → proved z t.proofs ≡ (names z (r ∷ rs) && works (attempt z))
      pub genuine : Genuine (λ z. proof_or_blank (attempt z)) t.proofs

    module _ (ok : Runs) where
      -- The first sector sets the challenges.
      unfoldable pub set_up : Work B → Work B
      set_up g = record g { post_proof_type = pt; fcs = some f }

      -- The challenges of the sector's kind of proof, `p`.
      abbrev by_kind : ℕ → String → Work B → ℤ → Work B × Option String
      by_kind sid cid g p = elim (c.challenges p rand (bits.elements all)) [
        | lost e ↦ (record g { post_proof_type = p }, some e)
        | got f' ↦ (
          proved_or_fault bits c (r ∷ rs) rand (bits.elements all) sid
              (record g { post_proof_type = p; fcs = some f' })
              (c.vanilla (private_of p (row (r ∷ rs) sid) cid) (f' sid)),
          none,
        )
      ]

      first_sector :
          (sid : ℕ) (g : Work B)
          → names sid (r ∷ rs) ≡ true
          → prove_sector bits c (r ∷ rs) rand (bits.elements all) sid (record g { fcs = none })
            ≡ prove_sector bits c (r ∷ rs) rand (bits.elements all) sid (set_up g)
      unfolding prove_sector set_up
      first_sector sid g n =
          let (cid, h) = ok.decodes sid n in
          rw h (
            subst
              (λ p.
                by_kind sid cid (record g { fcs = none }) p
                ≡ challenged bits c (r ∷ rs) rand (bits.elements all) sid cid (set_up g) (some f))
              (sym (ok.kinds sid n)) (rw (by_kind, ok.challenge)))

      goes_on :
          (sid : ℕ) (g : Work B)
          → names sid (r ∷ rs) ≡ true
          → g.fcs ≡ some f
          → (prove_sector bits c (r ∷ rs) rand (bits.elements all) sid g).1 ≡ none
      unfolding prove_sector
      goes_on sid g n e = let (cid, h) = ok.decodes sid n in rw (h, e)

      no_stop :
          (sids : List ℕ) (g : Work B)
          → ((z : ℕ) → has z sids ≡ true → names z (r ∷ rs) ≡ true)
          → g.fcs ≡ some f
          → g.post_proof_type ≡ pt
          → (prove_sectors bits c (r ∷ rs) rand (bits.elements all) sids g).1 ≡ none
      unfolding prove_sectors
      no_stop [] g n e k = refl
      no_stop (sid ∷ sids) g n e k =
          let one = goes_on sid g (n sid (ground arith)) e in
          let d = prove_sector-Done bits c (r ∷ rs) rand (bits.elements all) f pt sid g e k one in
          rw (prove_sectors, one)
            (no_stop sids (prove_sector bits c (r ∷ rs) rand (bits.elements all) sid g).0
              (λ z h. n z (ground (arith, h))) d.same_fcs d.same_type)

      same_run :
          (sid : ℕ) (sids : List ℕ) (g : Work B)
          → names sid (r ∷ rs) ≡ true
          → prove_sectors bits c
              (r ∷ rs)
              rand
              (bits.elements all)
              (sid ∷ sids)
              (record g { fcs = none })
            ≡ prove_sectors bits c (r ∷ rs) rand (bits.elements all) (sid ∷ sids) (set_up g)
      unfolding prove_sectors
      same_run sid sids g n =
          ap
            (λ q. elim q.1 [
              | some x ↦ (q.0, some x)
              | none ↦ prove_sectors bits c (r ∷ rs) rand (bits.elements all) sids q.0
            ])
            (first_sector sid g n)

      unfoldable pub start : Work B
      start = record (work_new bits c) {
        to_prove = all;
        repo_prove = listed_rows bits c (r ∷ rs) bits.new;
      }

      abbrev pub loop : List ℕ → Work B → Work B × Option String
      loop xs g = prove_sectors bits c (r ∷ rs) rand (bits.elements all) xs g

      abbrev pub Ran : List ℕ → Work B × Option String → Type 0
      Ran xs q =
          (q.1 ≡ none) × Done bits c (r ∷ rs) rand (bits.elements all) f pt xs (set_up start) q.0

      pub loop-Ran :
          (xs : List ℕ)
          → bits.elements (listed_rows bits c (r ∷ rs) bits.new) ≡ xs
          → Ran xs (loop xs start)
      unfolding set_up start
      loop-Ran [] e =
          let none_listed = listed_rows-names (to_uint64 r.sector_num) (r ∷ rs) in
          absurd (ground (arith, sym (ap (has (to_uint64 r.sector_num)) e) ∙ none_listed))
      loop-Ran (sid ∷ sids) e =
          let known : (z : ℕ) → has z (sid ∷ sids) ≡ true → names z (r ∷ rs) ≡ true =
            λ z h. sym (listed_rows-names z (r ∷ rs)) ∙ ap (has z) e ∙ h in
          let stops_not = no_stop (sid ∷ sids) (set_up start) known refl refl in
          subst (Ran (sid ∷ sids)) (sym (same_run sid sids start (known sid (ground arith)))) (
            stops_not,
            prove_sectors-Done bits c (r ∷ rs) rand (bits.elements all) f pt (sid ∷ sids)
                (set_up start) refl refl stops_not,
          )
