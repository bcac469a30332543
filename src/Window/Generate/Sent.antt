-- ===== src/Window/Generate/Sent.antt =====
-- worker/wdpost.go: the message of a run of GeneratePoStProof whose calls succeed.
use filecoin_sealer.Prelude.{
  ℕ, ◌≡◌, refl, ap, ◌∙◌, String, Bool, true, false, Called, got, lost, if◌then◌else◌, not, ◌&&◌,
  List, ◌∷◌, some, ℤ, arith,
}
use filecoin_sealer.Tables.{DbPostInfo}
use filecoin_sealer.Window.Bits.{Bitfields, Reliable}
use filecoin_sealer.Window.Data.{PostTransfer}
use filecoin_sealer.Window.Generate.Defs.{
  GenerateCalls, Assignment, Work, submitted, message, listed_rows, sent_if, foreach_error,
  with_address, with_sectors, with_rows, with_count, with_randomness, generate_post_proof,
}
use filecoin_sealer.Window.Generate.Loop.{works}
use filecoin_sealer.Window.Generate.Split.{
  names, Runs, Splits, attempt, loop, loop-Ran, set_up, start, listed_rows-names,
}

module _ {B : Type 0} (bits : Bitfields B) (sure : Reliable bits) (c : GenerateCalls)
    (w : Assignment B) (actor : String) (all : B) (r : DbPostInfo) (rs : List DbPostInfo)
    (rand : List ℕ) (f : ℕ → List ℕ) (pt : ℤ) where
  abbrev outcome : Runs bits c w actor all r rs rand f pt → Work B
  outcome ok =
      (loop bits c w actor all r rs rand f pt ok
        (bits.elements (listed_rows bits c (r ∷ rs) bits.new))
        (start bits c w actor all r rs rand f pt ok)).0

  message-Splits :
      (ok : Runs bits c w actor all r rs rand f pt)
      → Splits bits c w actor all r rs rand f pt (message w actor (outcome ok) (some rand) "")
  unfolding start set_up
  message-Splits ok =
      let (_, d) =
        loop-Ran bits c w actor all r rs rand f pt ok
          (bits.elements (listed_rows bits c (r ∷ rs) bits.new)) refl in
      record {
        without_error = refl;
        all_sectors = d.same_sectors;
        repo = λ z.
            d.repo z
            ∙ rw (listed_rows-names bits c z (r ∷ rs))
                (both (names z (r ∷ rs)) (works (attempt bits c w actor all r rs rand f pt z)));
        faulty = λ z. d.faulty z ∙ rw (bits.new_sound, listed_rows-names bits c z (r ∷ rs));
        covered = λ z. d.covered z ∙ rw (listed_rows-names bits c z (r ∷ rs));
        genuine = d.genuine tt;
      }
    where
      both : (p q : Bool) → (p && not (p && not q)) ≡ (p && q)
      both p q = ground arith

  connection :
      (b : Bool) (x : Called (List DbPostInfo))
      → (if b then x else lost "websocket routine exiting") ≡ got (r ∷ rs)
      → b ≡ true
  connection true x h = refl
  connection false x h = cc

  pub generate_post_proof-Splits :
      Runs bits c w actor all r rs rand f pt
      → (t : PostTransfer B) × (generate_post_proof bits c w ≡ submitted t)
        × (t.actor ≡ actor)
        × Splits bits c w actor all r rs rand f pt t
  unfolding generate_post_proof start
  generate_post_proof-Splits ok =
      let (stops_not, _) =
        loop-Ran bits c w actor all r rs rand f pt ok
          (bits.elements (listed_rows bits c (r ∷ rs) bits.new)) refl in
      let (n, e) = sure.counts (listed_rows bits c (r ∷ rs) bits.new) in
      (
        message w actor (outcome ok) (some rand) "",
        ap (λ b. sent_if bits c b (with_address bits c w c.address))
              (connection c.connected _ ok.answer)
            ∙ ap (with_address bits c w) ok.address
            ∙ ap (with_sectors bits c w actor) ok.sectors
            ∙ ap (with_rows bits c w actor all) ok.answer
            ∙ ap (with_count bits c w actor (r ∷ rs) (start bits c w actor all r rs rand f pt ok)) e
            ∙ ap
                (with_randomness bits c w actor (r ∷ rs)
                  (start bits c w actor all r rs rand f pt ok))
                ok.random
            ∙ ap
                (λ x. submitted (message w actor (outcome ok) (some rand) (foreach_error bits c x)))
                stops_not,
        refl,
        message-Splits ok,
      )
