-- ===== src/Window/Bits/Order.antt =====
-- Ascending lists of numbers, which are sets: they are equal when they have the same elements.
use filecoin_sealer.Prelude.{
  ℕ, ◌≡◌, refl, sym, ◌<◌, ◌≤◌, ◌∙◌, subst, ◌⊎◌, inl, inr, Bool, true, false, ◌||◌, ◌==◌, List, [],
  ◌∷◌, All, length, arith,
}

abbrev pub has : ℕ → List ℕ → Bool
has x [] = false
has x (y ∷ ys) = (x == y) || has x ys

-- Every element is above the ones before it.
abbrev pub Ascending : List ℕ → Type 0
Ascending [] = Unit
Ascending (x ∷ xs) = All (λ y. x < y) xs × Ascending xs

abbrev pub Subset : List ℕ → List ℕ → Type 0
Subset xs ys = (z : ℕ) → has z xs ≡ true → has z ys ≡ true

pub has-above : (x z : ℕ) (xs : List ℕ) → All (λ y. x < y) xs → has z xs ≡ true → x < z
has-above x z [] a h = cc
has-above x z (y ∷ ys) a h = ground (arith, has-above x z ys)

has_self : (x : ℕ) (xs : List ℕ) → has x (x ∷ xs) ≡ true
has_self x xs = ground arith

has-later : (x z : ℕ) (xs : List ℕ) → has z xs ≡ true → has z (x ∷ xs) ≡ true
has-later x z xs h = ground arith

has-tail : (x z : ℕ) (xs : List ℕ) → x < z → has z (x ∷ xs) ≡ true → has z xs ≡ true
has-tail x z xs l h = ground arith

-- In a superset, the first element of an ascending list is its head or later.
Subset-skip :
    (x y : ℕ) (xs ys : List ℕ)
    → Ascending (x ∷ xs)
    → Ascending (y ∷ ys)
    → y < x
    → Subset (x ∷ xs) (y ∷ ys)
    → Subset (x ∷ xs) ys
Subset-skip x y xs ys ax ay l h z e =
    let m : has z (y ∷ ys) ≡ true = h z e in
    let z_above : y < z = head_below x y z xs ax l e in has-tail y z ys z_above m
  where
    head_below :
        (x y z : ℕ) (xs : List ℕ) → Ascending (x ∷ xs) → y < x → has z (x ∷ xs) ≡ true → y < z
    head_below x y z xs a l e = ground (arith, has-above x z xs)

Subset-drop :
    (x : ℕ) (xs ys : List ℕ) → Ascending (x ∷ xs) → Subset (x ∷ xs) (x ∷ ys) → Subset xs ys
Subset-drop x xs ys ax h z e = has-tail x z ys (has-above x z xs ax.0 e) (h z (has-later x z xs e))

has-order : (x y : ℕ) (ys : List ℕ) → Ascending (y ∷ ys) → has x (y ∷ ys) ≡ true → (x ≡ y) ⊎ (y < x)
has-order x y ys a h = ground (arith, has-above y x ys)

-- A subset has no more elements, and is the whole when it has as many.
pub Subset-length :
    (xs ys : List ℕ)
    → Ascending xs
    → Ascending ys
    → Subset xs ys
    → (length xs ≤ length ys) × (length xs ≡ length ys → xs ≡ ys)
Subset-length [] [] ax ay h = (omega arith, λ _. refl)
Subset-length [] (y ∷ ys) ax ay h = (omega arith, λ e. absurd (omega (arith, e)))
Subset-length (x ∷ xs) [] ax ay h = absurd (cc (h x (has_self x xs)))
Subset-length (x ∷ xs) (y ∷ ys) ax ay h = elim (has-order x y ys ay (h x (has_self x xs))) [
  | inl e ↦
      (let s : Subset xs ys =
          Subset-drop x xs ys ax (subst (λ w. Subset (x ∷ xs) (w ∷ ys)) (sym e) h) in
        let (le, eq) = Subset-length xs ys ax.1 ay.1 s in
        (omega (arith, le), λ l. let t : xs ≡ ys = eq (omega (arith, l)) in cc))
  | inr l ↦
      (let s : Subset (x ∷ xs) ys = Subset-skip x y xs ys ax ay l h in
        let (le, eq) = Subset-length (x ∷ xs) ys ax ay.1 s in
        (omega (arith, le), λ e. absurd (omega (arith, le, e))))
]

pub Subset-equal :
    (xs ys : List ℕ) → Ascending xs → Ascending ys → Subset xs ys → length xs ≡ length ys → xs ≡ ys
Subset-equal xs ys ax ay h e = (Subset-length xs ys ax ay h).1 e

pub has-equal :
    (xs ys : List ℕ) → Ascending xs → Ascending ys → ((z : ℕ) → has z xs ≡ has z ys) → xs ≡ ys
has-equal xs ys ax ay h =
    let (le, eq) = Subset-length xs ys ax ay (λ z e. sym (h z) ∙ e) in
    let (ge, _) = Subset-length ys xs ay ax (λ z e. h z ∙ e) in eq (omega (arith, le, ge))
