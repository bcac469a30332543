-- ===== src/Prelude/Lists.antt =====
-- Lists read by predicates: rows of a table, and what a statement picks of them.
use Prim.Native.Nat.{ℕ, suc, ◌+◌}
use mathlib.Core.Path.{◌≡◌, refl, ap}
use mathlib.Core.Logic.{◌⊎◌, inl, inr}
use mathlib.Core.Bool.{Bool, true, false}
use mathlib.Core.List.{List, [], ◌∷◌, ◌++◌}
use native.Mathlib.Omega.{arith}
use filecoin_sealer.Prelude.Tests.{if◌then◌else◌, Bool-cases}

module _ {ℓ} {A : Type ℓ} where
  abbrev pub length : List A → ℕ
  length [] = 0
  length (x ∷ xs) = suc (length xs)

  pub length-append : (xs ys : List A) → length (xs ++ ys) ≡ length xs + length ys
  length-append [] ys = omega arith
  length-append (x ∷ xs) ys = omega (arith, length-append xs ys)

  -- The elements that pass a test, in order.
  abbrev pub select : (A → Bool) → List A → List A
  select p [] = []
  select p (x ∷ xs) = if p x then x ∷ select p xs else select p xs

  -- The elements that pass a test, changed in place.
  abbrev pub map_if : (A → Bool) → (A → A) → List A → List A
  map_if p f [] = []
  map_if p f (x ∷ xs) = (if p x then f x else x) ∷ map_if p f xs

  pub map_if-none : (p : A → Bool) (f : A → A) (xs : List A) → select p xs ≡ [] → map_if p f xs ≡ xs
  map_if-none p f [] h = refl
  map_if-none p f (x ∷ xs) h = ground (arith, map_if-none p f xs)

  pub length-map_if : (p : A → Bool) (f : A → A) (xs : List A) → length (map_if p f xs) ≡ length xs
  length-map_if p f [] = refl
  length-map_if p f (x ∷ xs) = ap suc (length-map_if p f xs)

module _ {ℓ κ} {A : Type ℓ} where
  -- Every element has the property.
  abbrev pub All : (A → Type κ) → List A → Type κ
  All P [] = Unit
  All P (x ∷ xs) = P x × All P xs

module _ {A : Type 0} where
  -- `x` is one of the elements.
  abbrev pub Member : A → List A → Type 0
  Member x [] = ⊥
  Member x (y ∷ ys) = (x ≡ y) ⊎ Member x ys

  -- Elements at the same place of two lists are related.
  abbrev pub Pointwise : (A → A → Type 0) → List A → List A → Type 0
  Pointwise R [] [] = Unit
  Pointwise R [] (y ∷ ys) = ⊥
  Pointwise R (x ∷ xs) [] = ⊥
  Pointwise R (x ∷ xs) (y ∷ ys) = R x y × Pointwise R xs ys

  pub All-Member : (P : A → Type 0) (x : A) (xs : List A) → All P xs → Member x xs → P x
  All-Member P x [] h m = absurd m
  All-Member P x (y ∷ ys) h (inl e) = rw e h.0
  All-Member P x (y ∷ ys) h (inr m) = All-Member P x ys h.1 m

  -- An element of a list that was changed in place comes from one before the change.
  pub Member-map_if :
      (p : A → Bool) (f : A → A) (y : A) (xs : List A)
      → Member y (map_if p f xs)
      → (x : A) × Member x xs × (y ≡ (if p x then f x else x))
  Member-map_if p f y [] m = absurd m
  Member-map_if p f y (x ∷ xs) (inl e) = (x, inl refl, e)
  Member-map_if p f y (x ∷ xs) (inr m) = let (z, mz, e) = Member-map_if p f y xs m in (z, inr mz, e)

  -- And what was there before is there still, changed or not.
  pub map_if-Member :
      (p : A → Bool) (f : A → A) (x : A) (xs : List A)
      → Member x xs
      → Member (if p x then f x else x) (map_if p f xs)
  map_if-Member p f x [] m = absurd m
  map_if-Member p f x (y ∷ ys) (inl e) = inl (ap (λ z. if p z then f z else z) e)
  map_if-Member p f x (y ∷ ys) (inr m) = inr (map_if-Member p f x ys m)

  pub map_if-hit :
      (p : A → Bool) (f : A → A) (x : A) (xs : List A)
      → p x ≡ true
      → Member x xs
      → Member (f x) (map_if p f xs)
  map_if-hit p f x xs hit m =
      let m' : Member (if p x then f x else x) (map_if p f xs) = map_if-Member p f x xs m in
      rw hit at m'

  pub map_if-miss :
      (p : A → Bool) (f : A → A) (x : A) (xs : List A)
      → p x ≡ false
      → Member x xs
      → Member x (map_if p f xs)
  map_if-miss p f x xs miss m =
      let m' : Member (if p x then f x else x) (map_if p f xs) = map_if-Member p f x xs m in
      rw miss at m'

  pub Pointwise-map_if :
      (R : A → A → Type 0) (p : A → Bool) (f : A → A) (xs : List A)
      → ((x : A) → p x ≡ true → R x (f x))
      → ((x : A) → p x ≡ false → R x x)
      → Pointwise R xs (map_if p f xs)
  Pointwise-map_if R p f [] hit miss = tt
  Pointwise-map_if R p f (x ∷ xs) hit miss = (
    elim (Bool-cases (p x)) [ inl e ↦ rw e (hit x e) | inr e ↦ rw e (miss x e) ],
    Pointwise-map_if R p f xs hit miss,
  )

module _ {A : Type 0} where
  -- The elements of two lists, one behind the other.
  pub Member-append_left : (x : A) (xs ys : List A) → Member x xs → Member x (xs ++ ys)
  Member-append_left x [] ys m = absurd m
  Member-append_left x (z ∷ xs) ys (inl e) = inl e
  Member-append_left x (z ∷ xs) ys (inr m) = inr (Member-append_left x xs ys m)

  pub Member-append_right : (x : A) (xs ys : List A) → Member x ys → Member x (xs ++ ys)
  Member-append_right x [] ys m = m
  Member-append_right x (z ∷ xs) ys m = inr (Member-append_right x xs ys m)

  pub Member-append : (x : A) (xs ys : List A) → Member x (xs ++ ys) → Member x xs ⊎ Member x ys
  Member-append x [] ys m = inr m
  Member-append x (z ∷ xs) ys (inl e) = inl (inl e)
  Member-append x (z ∷ xs) ys (inr m) = elim (Member-append x xs ys m) [
    | inl a ↦ inl (inr a)
    | inr b ↦ inr b
  ]
