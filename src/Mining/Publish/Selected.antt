-- ===== src/Mining/Publish/Selected.antt =====
-- mining/util.go: the loop of publishBlockMsg over the messages of the pool.
use filecoin_sealer.Prelude.{
  ◌≡◌, refl, sym, ◌∙◌, subst, Bool, true, false, not, String, List, [], ◌∷◌, ◌++◌, map, got,
  bind_got, got_injective, select, Bool-cases, inl, inr,
}
use mathlib.Core.List.{append_assoc, append-nil}
use filecoin_sealer.Mining.Publish.Defs.{
  PoolMessage, Selected, is_bls, with_message, select_messages,
}

abbrev pub has_bls : PoolMessage → Bool
has_bls m = is_bls m.signature.sig_type

abbrev pub has_secpk : PoolMessage → Bool
has_secpk m = not (is_bls m.signature.sig_type)

-- Each message has its block of storage.
abbrev pub Stored : List PoolMessage → List String → Type 0
Stored [] bs = bs ≡ []
Stored (m ∷ ms) bs =
    (b : String) × (rest : List String) × (bs ≡ b ∷ rest) × (m.storage ≡ got b) × Stored ms rest

-- What the loop adds to what it had.
pub record Adds (s t : Selected) (ms : List PoolMessage) : Type 0 where
  pub bls_blocks : List String
  pub secpk_blocks : List String
  pub bls : t.bls_messages ≡ s.bls_messages ++ map (λ m. m.cid) (select has_bls ms)
  pub secpk : t.secpk_messages ≡ s.secpk_messages ++ map (λ m. m.cid) (select has_secpk ms)
  pub sigs : t.bls_sigs ≡ s.bls_sigs ++ map (λ m. m.signature) (select has_bls ms)
  pub blkcids : t.blkcids ≡ s.blkcids ++ bls_blocks
  pub secpkcids : t.secpkcids ≡ s.secpkcids ++ secpk_blocks
  pub bls_stored : Stored (select has_bls ms) bls_blocks
  pub secpk_stored : Stored (select has_secpk ms) secpk_blocks

module _ (m : PoolMessage) (b : String) (ms : List PoolMessage) (s t : Selected) where
  bls-Adds :
      has_bls m ≡ true → m.storage ≡ got b → Adds (with_message m b s) t ms → Adds s t (m ∷ ms)
  bls-Adds e eb n = record {
    bls_blocks = b ∷ n.bls_blocks;
    secpk_blocks = n.secpk_blocks;
    bls = rw e ((rw e at n.bls) ∙ append_assoc s.bls_messages (m.cid ∷ []) _);
    secpk = rw e (rw e at n.secpk);
    sigs = rw e ((rw e at n.sigs) ∙ append_assoc s.bls_sigs (m.signature ∷ []) _);
    blkcids = (rw e at n.blkcids) ∙ append_assoc s.blkcids (b ∷ []) n.bls_blocks;
    secpkcids = rw e at n.secpkcids;
    bls_stored = rw e (b, n.bls_blocks, refl, eb, n.bls_stored);
    secpk_stored = rw e n.secpk_stored;
  }

  secpk-Adds :
      has_bls m ≡ false → m.storage ≡ got b → Adds (with_message m b s) t ms → Adds s t (m ∷ ms)
  secpk-Adds e eb n = record {
    bls_blocks = n.bls_blocks;
    secpk_blocks = b ∷ n.secpk_blocks;
    bls = rw e (rw e at n.bls);
    secpk = rw e ((rw e at n.secpk) ∙ append_assoc s.secpk_messages (m.cid ∷ []) _);
    sigs = rw e (rw e at n.sigs);
    blkcids = rw e at n.blkcids;
    secpkcids = (rw e at n.secpkcids) ∙ append_assoc s.secpkcids (b ∷ []) n.secpk_blocks;
    bls_stored = rw e n.bls_stored;
    secpk_stored = rw e (b, n.secpk_blocks, refl, eb, n.secpk_stored);
  }

pub select_messages-Adds :
    (ms : List PoolMessage) (s t : Selected) → select_messages ms s ≡ got t → Adds s t ms
unfolding select_messages
select_messages-Adds [] s t h =
    subst (λ x. Adds s x []) (got_injective h)
      (record {
        bls_blocks = [];
        secpk_blocks = [];
        bls = sym (append-nil _);
        secpk = sym (append-nil _);
        sigs = sym (append-nil _);
        blkcids = sym (append-nil _);
        secpkcids = sym (append-nil _);
        bls_stored = refl;
        secpk_stored = refl;
      })
select_messages-Adds (m ∷ ms) s t h =
    let (b, eb, h1) = bind_got m.storage _ h in
    let next = select_messages-Adds ms (with_message m b s) t h1 in
    elim (Bool-cases (has_bls m)) [
      | inl e ↦ bls-Adds m b ms s t e eb next
      | inr e ↦ secpk-Adds m b ms s t e eb next
    ]
