-- ===== src/Window/Generate/Loop.antt =====
-- worker/wdpost.go: what the loop over the sectors leaves in the variables of GeneratePoStProof.
use filecoin_sealer.Prelude.{
  ℕ, ◌≡◌, refl, sym, ap, subst, ◌∙◌, ◌==◌, String, Bool, true, false, not, ◌&&◌, ◌||◌, List, [],
  ◌∷◌, ◌++◌, Option, none, some, ℤ, arith, Called, got, lost, ◌>>=◌,
}
use filecoin_sealer.Tables.{DbPostInfo}
use filecoin_sealer.Window.Bits.{Bitfields, has}
use filecoin_sealer.Window.Collect.Gathered.{proved, proved-append, Genuine, Genuine-append}
use filecoin_sealer.Window.Generate.Defs.{
  GenerateCalls, Work, row, private_of, proved_or_fault, challenged, decoded, prove_sector,
  prove_sectors,
}

abbrev pub works : Called (List ℕ) → Bool
works (got p) = true
works (lost e) = false

abbrev pub proof_or_blank : Called (List ℕ) → List ℕ
proof_or_blank (got p) = p
proof_or_blank (lost e) = []

same : (z sid : ℕ) → (z == sid) ≡ true → z ≡ sid
same z sid h = ground arith

or_more :
    (x y z p q w : Bool)
    → y ≡ (x || ((p || false) && w))
    → z ≡ (y || (q && w))
    → z ≡ (x || ((p || q) && w))
or_more x y z p q w h k = ground (arith, h, k)

and_more :
    (x y z p q w : Bool)
    → y ≡ (x && not ((p || false) && not w))
    → z ≡ (y && not (q && not w))
    → z ≡ (x && not ((p || q) && not w))
and_more x y z p q w h k = ground (arith, h, k)

module _ {B : Type 0} (bits : Bitfields B) (c : GenerateCalls) (rows : List DbPostInfo)
    (rand sset : List ℕ) (f : ℕ → List ℕ) (pt : ℤ) where
  -- The attempt at the proof of a sector, with the challenges and the proof type of the run.
  abbrev pub tries : ℕ → Called (List ℕ)
  tries z = c.decode (row rows z).comm_r >>= λ cid. c.vanilla (private_of pt (row rows z) cid) (f z)

  -- The variables after the sectors `sids`.
  pub record Done (sids : List ℕ) (g g' : Work B) : Type 0 where
    pub same_fcs : g'.fcs ≡ some f
    pub same_type : g'.post_proof_type ≡ pt
    pub same_sectors : g'.to_prove ≡ g.to_prove
    pub repo :
        (z : ℕ)
        → has z (bits.elements g'.repo_prove)
          ≡ (has z (bits.elements g.repo_prove) && not (has z sids && not (works (tries z))))
    pub faulty :
        (z : ℕ)
        → has z (bits.elements g'.fault)
          ≡ (has z (bits.elements g.fault) || (has z sids && not (works (tries z))))
    pub covered :
        (z : ℕ) → proved z g'.proofs ≡ (proved z g.proofs || (has z sids && works (tries z)))
    pub genuine :
        Genuine (λ z. proof_or_blank (tries z)) g.proofs
        → Genuine (λ z. proof_or_blank (tries z)) g'.proofs

  pub Done-none : (g : Work B) → g.fcs ≡ some f → g.post_proof_type ≡ pt → Done [] g g
  Done-none g e k = record {
    same_fcs = e;
    same_type = k;
    same_sectors = refl;
    repo = λ z. ground arith;
    faulty = λ z. ground arith;
    covered = λ z. ground arith;
    genuine = λ h. h;
  }

  Done-more :
      (sid : ℕ) (sids : List ℕ) (g g1 g2 : Work B)
      → Done (sid ∷ []) g g1
      → Done sids g1 g2
      → Done (sid ∷ sids) g g2
  Done-more sid sids g g1 g2 a b = record {
    same_fcs = b.same_fcs;
    same_type = b.same_type;
    same_sectors = b.same_sectors ∙ a.same_sectors;
    repo = λ z.
        and_more (has z (bits.elements g.repo_prove)) (has z (bits.elements g1.repo_prove))
          (has z (bits.elements g2.repo_prove)) (z == sid) (has z sids) (works (tries z)) (a.repo z)
          (b.repo z);
    faulty = λ z.
        or_more (has z (bits.elements g.fault)) (has z (bits.elements g1.fault))
          (has z (bits.elements g2.fault)) (z == sid) (has z sids) (not (works (tries z)))
          (a.faulty z) (b.faulty z);
    covered = λ z.
        or_more (proved z g.proofs) (proved z g1.proofs) (proved z g2.proofs) (z == sid)
          (has z sids) (works (tries z)) (a.covered z) (b.covered z);
    genuine = λ h. b.genuine (a.genuine h);
  }

  -- One sector, with the outcome of its attempt.
  Done-one :
      (sid : ℕ) (g : Work B) (o : Called (List ℕ))
      → g.fcs ≡ some f
      → g.post_proof_type ≡ pt
      → tries sid ≡ o
      → Done (sid ∷ []) g (proved_or_fault bits c rows rand sset sid g o)
  Done-one sid g (got p) e k h = record {
    same_fcs = e;
    same_type = k;
    same_sectors = refl;
    repo = λ z. kept z (works-at z);
    faulty = λ z. unmarked z (works-at z);
    covered = λ z. added z (works-at z);
    genuine = λ q. Genuine-append _ g.proofs _ q (ap proof_or_blank (sym h), tt);
  }
    where
      works-at : (z : ℕ) → (z == sid) ≡ true → works (tries z) ≡ true
      works-at z q = ap (λ x. works (tries x)) (same z sid q) ∙ ap works h

      kept :
          (z : ℕ)
          → ((z == sid) ≡ true → works (tries z) ≡ true)
          → has z (bits.elements g.repo_prove) ≡ (
              has z (bits.elements g.repo_prove)
              && not (((z == sid) || false) && not (works (tries z))))
      kept z w = ground (arith, w)

      unmarked :
          (z : ℕ)
          → ((z == sid) ≡ true → works (tries z) ≡ true)
          → has z (bits.elements g.fault)
            ≡ (has z (bits.elements g.fault) || (((z == sid) || false) && not (works (tries z))))
      unmarked z w = ground (arith, w)

      added :
          (z : ℕ)
          → ((z == sid) ≡ true → works (tries z) ≡ true)
          → proved z (g.proofs ++ record { sector_num = sid; proof = p } ∷ [])
            ≡ (proved z g.proofs || (((z == sid) || false) && works (tries z)))
      added z w =
          rw (proved-append z g.proofs (record { sector_num = sid; proof = p } ∷ []))
            (ground (arith, w))
  Done-one sid g (lost x) e k h = record {
    same_fcs = e;
    same_type = k;
    same_sectors = refl;
    repo = λ z.
        rw (bits.unset_sound sid z g.repo_prove)
          (dropped z (has z (bits.elements g.repo_prove)) (fails-at z));
    faulty = λ z.
        rw (bits.set_sound sid z g.fault) (marked z (has z (bits.elements g.fault)) (fails-at z));
    covered = λ z. unproved z (proved z g.proofs) (fails-at z);
    genuine = λ q. q;
  }
    where
      fails-at : (z : ℕ) → (z == sid) ≡ true → works (tries z) ≡ false
      fails-at z q = ap (λ x. works (tries x)) (same z sid q) ∙ ap works h

      dropped :
          (z : ℕ) (b : Bool)
          → ((z == sid) ≡ true → works (tries z) ≡ false)
          → (not (z == sid) && b) ≡ (b && not (((z == sid) || false) && not (works (tries z))))
      dropped z b w = ground (arith, w)

      marked :
          (z : ℕ) (b : Bool)
          → ((z == sid) ≡ true → works (tries z) ≡ false)
          → ((z == sid) || b) ≡ (b || (((z == sid) || false) && not (works (tries z))))
      marked z b w = ground (arith, w)

      unproved :
          (z : ℕ) (b : Bool)
          → ((z == sid) ≡ true → works (tries z) ≡ false)
          → b ≡ (b || (((z == sid) || false) && works (tries z)))
      unproved z b w = ground (arith, w)

  -- A sector that does not stop the loop has had its attempt.
  pub prove_sector-Done :
      (sid : ℕ) (g : Work B)
      → g.fcs ≡ some f
      → g.post_proof_type ≡ pt
      → (prove_sector bits c rows rand sset sid g).1 ≡ none
      → Done (sid ∷ []) g (prove_sector bits c rows rand sset sid g).0
  unfolding prove_sector
  prove_sector-Done sid g e k n = from (c.decode (row rows sid).comm_r) refl n
    where
      from :
          (o : Called String)
          → c.decode (row rows sid).comm_r ≡ o
          → (decoded bits c rows rand sset sid g o).1 ≡ none
          → Done (sid ∷ []) g (decoded bits c rows rand sset sid g o).0
      from (lost x) h n = cc
      from (got cid) h n =
          subst (λ q. Done (sid ∷ []) g (challenged bits c rows rand sset sid cid g q).0) (sym e)
            (subst
              (λ p. Done (sid ∷ []) g (
                proved_or_fault bits c rows rand sset sid g
                  (c.vanilla (private_of p (row rows sid) cid) (f sid))))
              (sym k)
              (Done-one sid g (c.vanilla (private_of pt (row rows sid) cid) (f sid)) e k (rw h)))

  abbrev onward : List ℕ → Work B × Option String → Work B × Option String
  onward sids r = elim r.1 [
    | some x ↦ (r.0, some x)
    | none ↦ prove_sectors bits c rows rand sset sids r.0
  ]

  pub prove_sectors-Done :
      (sids : List ℕ) (g : Work B)
      → g.fcs ≡ some f
      → g.post_proof_type ≡ pt
      → (prove_sectors bits c rows rand sset sids g).1 ≡ none
      → Done sids g (prove_sectors bits c rows rand sset sids g).0
  unfolding prove_sectors
  prove_sectors-Done [] g e k n = Done-none g e k
  prove_sectors-Done (sid ∷ sids) g e k n =
      after (prove_sector bits c rows rand sset sid g) (prove_sector-Done sid g e k)
        (λ g1 e1 k1 n1. prove_sectors-Done sids g1 e1 k1 n1) n
    where
      after :
          (r : Work B × Option String)
          → (r.1 ≡ none → Done (sid ∷ []) g r.0)
          → ((g1 : Work B)
              → g1.fcs ≡ some f
              → g1.post_proof_type ≡ pt
              → (prove_sectors bits c rows rand sset sids g1).1 ≡ none
              → Done sids g1 (prove_sectors bits c rows rand sset sids g1).0)
          → (onward sids r).1 ≡ none
          → Done (sid ∷ sids) g (onward sids r).0
      after (g1, some x) one more n = cc
      after (g1, none) one more n =
          let d = one refl in
          Done-more sid sids g g1 (prove_sectors bits c rows rand sset sids g1).0 d
            (more g1 d.same_fcs d.same_type n)
