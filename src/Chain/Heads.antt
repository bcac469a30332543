-- ===== src/Chain/Heads.antt =====
-- chain/notify.go: SubscribeHeader, which makes a head of the blocks of one list.
use filecoin_sealer.Prelude.{
  ◌≡◌, refl, sym, ap, ◌∙◌, Bool, true, false, not, ◌||◌, String, List, [], ◌∷◌, ◌++◌, Option, none,
  some, ℤ, str_eq, str_eq_iff, if◌then◌else◌, arith, Bool-cases, inl, inr, select, subst,
}
use filecoin_sealer.Chain.Blocks.{Block}

abbrev pub is_seen : String → List String → Bool
is_seen x [] = false
is_seen x (y ∷ ys) = str_eq y x || is_seen x ys

-- The CIDs of the blocks' messages, block by block.
abbrev pub cids_of : List Block → List String
cids_of [] = []
cids_of (b ∷ bs) = (b.bls_messages ++ b.secpk_messages) ++ cids_of bs

-- The messages found so far, and the keys of `msgsMap`.
pub record Gathered (M : Type 0) : Type 0 where
  pub msgs : List M
  pub seen : List String

pub record HeadInfo (M : Type 0) : Type 0 where
  pub height : ℤ
  pub message : List M

module _ {M : Type 0} (cache : String → Option M) where
  -- The loop over the CIDs; `cache` is `c.Cache.Get`, whose error ends the goroutine.
  unfoldable pub gather : List String → Gathered M → Option (Gathered M)
  gather [] g = some g
  gather (x ∷ xs) g = elim (is_seen x g.seen) [
    | true ↦ gather xs g
    | false ↦ elim (cache x) [
      | none ↦ none
      | some m ↦ gather xs (record { msgs = g.msgs ++ m ∷ []; seen = x ∷ g.seen })
    ]
  ]

  -- The head of the blocks; `tipset_ok` is whether `NsNewTipSet` takes their headers.
  abbrev pub head_with : Bool → List Block → Option (Gathered M) → Option (HeadInfo M)
  head_with tipset_ok blks none = none
  head_with tipset_ok [] (some g) = none
  head_with tipset_ok (b ∷ bs) (some g) =
      if tipset_ok then some (record { height = b.height; message = g.msgs }) else none

  unfoldable pub subscribe_header : Bool → List Block → Option (HeadInfo M)
  unfolding gather
  subscribe_header tipset_ok blks =
      head_with tipset_ok blks (gather (cids_of blks) (record { msgs = []; seen = [] }))

-- The first of each of the texts, in their order.
abbrev pub distinct : List String → List String
distinct [] = []
distinct (x ∷ xs) = x ∷ select (λ y. not (str_eq x y)) (distinct xs)

-- The texts that are not among `seen`.
abbrev unseen : List String → List String → List String
unseen seen xs = select (λ y. not (is_seen y seen)) xs

same_seen :
    (x y : String) (seen : List String) → str_eq x y ≡ true → is_seen x seen ≡ is_seen y seen
same_seen x y seen e = ap (λ z. is_seen z seen) ((str_eq_iff x y).0 e)

unseen_known :
    (x : String) (seen ys : List String)
    → is_seen x seen ≡ true
    → unseen seen (select (λ y. not (str_eq x y)) ys) ≡ unseen seen ys
unseen_known x seen [] h = refl
unseen_known x seen (y ∷ ys) h = ground (arith, unseen_known x seen ys h, same_seen x y seen)

unseen_new :
    (x : String) (seen ys : List String)
    → unseen seen (select (λ y. not (str_eq x y)) ys) ≡ unseen (x ∷ seen) ys
unseen_new x seen [] = refl
unseen_new x seen (y ∷ ys) = ground (arith, unseen_new x seen ys)

module _ {M : Type 0} (cache : String → Option M) where
  abbrev consed : M → Option (List M) → Option (List M)
  consed m none = none
  consed m (some ms) = some (m ∷ ms)

  -- The messages of all the CIDs, if the cache has them all.
  abbrev pub look_up_all : List String → Option (List M)
  look_up_all [] = some []
  look_up_all (x ∷ xs) = elim (cache x) [ none ↦ none | some m ↦ consed m (look_up_all xs) ]

  abbrev msgs_of : Option (Gathered M) → Option (List M)
  msgs_of none = none
  msgs_of (some g) = some g.msgs

  abbrev prepend : List M → Option (List M) → Option (List M)
  prepend ms none = none
  prepend ms (some ns) = some (ms ++ ns)

  append_nil : (ms : List M) → ms ++ [] ≡ ms
  append_nil [] = refl
  append_nil (m ∷ ms) = ap (λ x. m ∷ x) (append_nil ms)

  append_assoc : (xs ys zs : List M) → (xs ++ ys) ++ zs ≡ xs ++ (ys ++ zs)
  append_assoc [] ys zs = refl
  append_assoc (x ∷ xs) ys zs = ap (λ w. x ∷ w) (append_assoc xs ys zs)

  prepend_one :
      (ms : List M) (m : M) (o : Option (List M))
      → prepend (ms ++ m ∷ []) o ≡ prepend ms (consed m o)
  prepend_one ms m none = refl
  prepend_one ms m (some ns) = ap some (append_assoc ms (m ∷ []) ns)

  gather_lem :
      (xs : List String) (g : Gathered M)
      → msgs_of (gather cache xs g) ≡ prepend g.msgs (look_up_all (unseen g.seen (distinct xs)))
  unfolding gather
  gather_lem [] g = ap some (sym (append_nil g.msgs))
  gather_lem (x ∷ xs) g = elim (Bool-cases (is_seen x g.seen)) [
    | inl s ↦ rw (gather, s, unseen_known x g.seen (distinct xs) s) (gather_lem xs g)
    | inr n ↦
        rw (gather, n)
          (subst
            (λ ys.
              msgs_of (elim (cache x) [
                | none ↦ none
                | some m ↦ gather cache xs (record { msgs = g.msgs ++ m ∷ []; seen = x ∷ g.seen })
              ])
              ≡ prepend g.msgs (look_up_all (x ∷ ys)))
            (sym (unseen_new x g.seen (distinct xs)))
            (with_message (cache x)
              (λ m. gather_lem xs (record { msgs = g.msgs ++ m ∷ []; seen = x ∷ g.seen }))))
  ]
    where
      with_message :
          (o : Option M)
          → ((m : M)
              → msgs_of (gather cache xs (record { msgs = g.msgs ++ m ∷ []; seen = x ∷ g.seen }))
                ≡ prepend (g.msgs ++ m ∷ []) (look_up_all (unseen (x ∷ g.seen) (distinct xs))))
          → msgs_of (elim o [
            | none ↦ none
            | some m ↦ gather cache xs (record { msgs = g.msgs ++ m ∷ []; seen = x ∷ g.seen })
          ])
            ≡ prepend g.msgs (elim o [
              | none ↦ none
              | some m ↦ consed m (look_up_all (unseen (x ∷ g.seen) (distinct xs)))
            ])
      with_message none more = refl
      with_message (some m) more =
          more m ∙ prepend_one g.msgs m (look_up_all (unseen (x ∷ g.seen) (distinct xs)))

  unseen_none : (xs : List String) → unseen [] xs ≡ xs
  unseen_none [] = refl
  unseen_none (x ∷ xs) = ap (λ ys. x ∷ ys) (unseen_none xs)

  prepend_none : (o : Option (List M)) → prepend [] o ≡ o
  prepend_none none = refl
  prepend_none (some ms) = refl

  -- The head that is made of some messages, of the blocks with the first one's height.
  abbrev pub head_of : Bool → List Block → Option (List M) → Option (HeadInfo M)
  head_of tipset_ok blks none = none
  head_of tipset_ok [] (some ms) = none
  head_of tipset_ok (b ∷ bs) (some ms) =
      if tipset_ok then some (record { height = b.height; message = ms }) else none

  same_head :
      (tipset_ok : Bool) (blks : List Block) (o : Option (Gathered M))
      → head_with cache tipset_ok blks o ≡ head_of tipset_ok blks (msgs_of o)
  same_head tipset_ok blks none = refl
  same_head tipset_ok [] (some g) = refl
  same_head tipset_ok (b ∷ bs) (some g) = refl

  -- The messages of a head are those of the blocks' CIDs, each once and in the order in which it comes
  -- first; when the cache lacks one of them there is no head. So it is for every list of blocks, which
  -- has no head either when it is empty or the headers make no tipset.
  pub subscribe_header_lem :
      (tipset_ok : Bool) (blks : List Block)
      → subscribe_header cache tipset_ok blks
        ≡ head_of tipset_ok blks (look_up_all (distinct (cids_of blks)))
  unfolding subscribe_header
  subscribe_header_lem tipset_ok blks =
      same_head tipset_ok blks (gather cache (cids_of blks) (record { msgs = []; seen = [] }))
      ∙ ap (head_of tipset_ok blks) (
          gather_lem (cids_of blks) (record { msgs = []; seen = [] })
          ∙ prepend_none (look_up_all (unseen [] (distinct (cids_of blks))))
          ∙ ap look_up_all (unseen_none (distinct (cids_of blks))))
