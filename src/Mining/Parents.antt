-- ===== src/Mining/Parents.antt =====
-- mining/util.go: the messages of the head's blocks, their receipts, and the path of the sealed file.
use filecoin_sealer.Prelude.{
  ℕ, ◌≡◌, refl, sym, ap, ◌∙◌, subst, String, Bool, true, false, ◌||◌, List, [], ◌∷◌, ◌++◌, map,
  str_eq, str_eq_refl, str_eq_iff, Called, got, lost, got_injective, select, Bool-cases, inl, inr,
  ◌⊎◌, arith, All,
}
use filecoin_sealer.Chain.Heads.{is_seen}
use filecoin_sealer.Mining.Defs.{
  CidMessage, Receipt, ParentMessages, add_message, add_messages, parent_messages, any_there,
  find_sealed_path,
}

-- No text of the list is among the later ones.
abbrev pub Distinct : List String → Type 0
Distinct [] = Unit
Distinct (x ∷ xs) = (is_seen x xs ≡ false) × Distinct xs

abbrev pub cids : List CidMessage → List String
cids ms = map (λ m. m.cid) ms

-- A path of the list that has the file of one of the sectors, the first such path.
abbrev pub FirstPath : (String → ℕ → Bool) → List ℕ → List String → String → Type 0
FirstPath is_there sectors [] path = ⊥
FirstPath is_there sectors (p ∷ ps) path =
    ((path ≡ p) × (any_there (is_there p) sectors ≡ true))
    ⊎ ((any_there (is_there p) sectors ≡ false) × FirstPath is_there sectors ps path)

pub find_sealed_path-FirstPath :
    (is_there : String → ℕ → Bool) (sectors : List ℕ) (ps : List String)
    → str_eq (find_sealed_path is_there sectors ps) "" ≡ false
    → FirstPath is_there sectors ps (find_sealed_path is_there sectors ps)
unfolding find_sealed_path
find_sealed_path-FirstPath is_there sectors [] h = absurd (cc (sym (str_eq_refl "") ∙ h))
find_sealed_path-FirstPath is_there sectors (p ∷ ps) h =
    elim (Bool-cases (any_there (is_there p) sectors)) [
      | inl e ↦ rw e (inl (refl, refl))
      | inr e ↦
          (let h' : str_eq (find_sealed_path is_there sectors ps) "" ≡ false = rw e at h in
            rw e (inr (refl, find_sealed_path-FirstPath is_there sectors ps h')))
    ]

is_seen-append :
    (z x : String) (xs : List String) → is_seen z (xs ++ x ∷ []) ≡ (is_seen z xs || str_eq x z)
is_seen-append z x [] = ground arith
is_seen-append z x (y ∷ ys) = ground (arith, is_seen-append z x ys)

str_eq_sym : (x y : String) → str_eq x y ≡ false → str_eq y x ≡ false
str_eq_sym x y h = elim (Bool-cases (str_eq y x)) [
  | inl e ↦ absurd (cc (sym h ∙ ap (λ z. str_eq z y) (sym ((str_eq_iff y x).0 e)) ∙ str_eq_refl y))
  | inr e ↦ e
]

Distinct-append :
    (x : String) (xs : List String) → Distinct xs → is_seen x xs ≡ false → Distinct (xs ++ x ∷ [])
Distinct-append x [] d h = (refl, tt)
Distinct-append x (y ∷ ys) d h = (
  rw (is_seen-append y x ys) (ground (arith, d.0, h, str_eq_sym y x)),
  Distinct-append x ys d.1 (ground (arith, h)),
)

cids-append : (ms : List CidMessage) (m : CidMessage) → cids (ms ++ m ∷ []) ≡ cids ms ++ m.cid ∷ []
cids-append [] m = refl
cids-append (x ∷ ms) m = ap (λ ys. x.cid ∷ ys) (cids-append ms m)

-- The messages have different CIDs, which are the keys of the map.
pub record Kept (p : ParentMessages) : Type 0 where
  pub apart : Distinct (cids p.parent_msg)
  pub keys : (z : String) → is_seen z p.map_msg ≡ is_seen z (cids p.parent_msg)

add_message-Kept : (m : CidMessage) (p : ParentMessages) → Kept p → Kept (add_message m p)
add_message-Kept m p k = elim (Bool-cases (is_seen m.cid p.map_msg)) [
  | inl s ↦ rw s k
  | inr n ↦ rw n (added n)
]
  where
    or_swap : (a b : Bool) → (a || b) ≡ (b || a)
    or_swap a b = ground arith

    added :
        is_seen m.cid p.map_msg ≡ false
        → Kept (record { parent_msg = p.parent_msg ++ m ∷ []; map_msg = m.cid ∷ p.map_msg })
    added n = record {
      apart =
          subst Distinct (sym (cids-append p.parent_msg m))
            (Distinct-append m.cid (cids p.parent_msg) k.apart (sym (k.keys m.cid) ∙ n));
      keys = λ z.
          ap (λ b. str_eq m.cid z || b) (k.keys z)
          ∙ or_swap (str_eq m.cid z) (is_seen z (cids p.parent_msg))
          ∙ sym (is_seen-append z m.cid (cids p.parent_msg))
          ∙ ap (is_seen z) (sym (cids-append p.parent_msg m));
    }

add_messages-Kept : (ms : List CidMessage) (p : ParentMessages) → Kept p → Kept (add_messages ms p)
add_messages-Kept [] p k = k
add_messages-Kept (m ∷ ms) p k = add_messages-Kept ms (add_message m p) (add_message-Kept m p k)

pub parent_messages-Kept :
    (bs : List (Called (List CidMessage × List CidMessage))) (p q : ParentMessages)
    → Kept p
    → parent_messages bs p ≡ got q
    → Kept q
unfolding parent_messages
parent_messages-Kept [] p q k h = subst Kept (got_injective h) k
parent_messages-Kept (lost e ∷ bs) p q k h = cc
parent_messages-Kept (got (bls, secpk) ∷ bs) p q k h =
    parent_messages-Kept bs _ q (add_messages-Kept secpk _ (add_messages-Kept bls p k)) h

pub of_Kept :
    (p : ParentMessages) (rs : List Receipt)
    → Kept p
    → All
        (λ r. is_seen r.msg_cid (cids p.parent_msg) ≡ true)
        (select (λ r. is_seen r.msg_cid p.map_msg) rs)
of_Kept p [] k = tt
of_Kept p (r ∷ rs) k = elim (Bool-cases (is_seen r.msg_cid p.map_msg)) [
  | inl e ↦ rw e (sym (k.keys r.msg_cid) ∙ e, of_Kept p rs k)
  | inr e ↦ rw e (of_Kept p rs k)
]
