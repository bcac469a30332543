-- ===== src/Window/Listed.antt =====
-- Sets of sector numbers kept as lists in any order: what the proofs rely on of go-bitfield can be
-- met.
use filecoin_sealer.Prelude.{
  ℕ, ◌≡◌, refl, sym, ◌<◌, true, not, ◌&&◌, ◌||◌, ◌==◌, ltb, List, [], ◌∷◌, ◌++◌, All, length,
  select, if◌then◌else◌, got, got_injective, arith,
}
use filecoin_sealer.Window.Bits.{has, Ascending, Bitfields}

-- `x` at its place, once.
abbrev pub place : ℕ → List ℕ → List ℕ
place x [] = x ∷ []
place x (y ∷ ys) = if ltb x y then x ∷ y ∷ ys else if x == y then y ∷ ys else y ∷ place x ys

abbrev pub sorted : List ℕ → List ℕ
sorted [] = []
sorted (x ∷ xs) = place x (sorted xs)

has-place : (x y : ℕ) (xs : List ℕ) → has y (place x xs) ≡ ((y == x) || has y xs)
has-place x y [] = refl
has-place x y (z ∷ zs) = ground (arith, has-place x y zs)

pub has-sorted : (y : ℕ) (xs : List ℕ) → has y (sorted xs) ≡ has y xs
has-sorted y [] = refl
has-sorted y (x ∷ xs) = rw (has-place x y (sorted xs), has-sorted y xs)

All-place : (l x : ℕ) (xs : List ℕ) → l < x → All (λ y. l < y) xs → All (λ y. l < y) (place x xs)
All-place l x [] h a = (h, tt)
All-place l x (y ∷ ys) h a = ground (arith, All-place l x ys)

below : (x y : ℕ) (xs : List ℕ) → x < y → All (λ z. y < z) xs → All (λ z. x < z) xs
below x y [] h a = tt
below x y (z ∷ zs) h a = ground (arith, below x y zs)

place-Ascending : (x : ℕ) (xs : List ℕ) → Ascending xs → Ascending (place x xs)
place-Ascending x [] a = (tt, tt)
place-Ascending x (y ∷ ys) a = ground (arith, place-Ascending x ys, All-place y x ys, below x y ys)

pub sorted-Ascending : (xs : List ℕ) → Ascending (sorted xs)
sorted-Ascending [] = tt
sorted-Ascending (x ∷ xs) = place-Ascending x (sorted xs) (sorted-Ascending xs)

pub has-append : (y : ℕ) (xs ys : List ℕ) → has y (xs ++ ys) ≡ (has y xs || has y ys)
has-append y [] ys = refl
has-append y (x ∷ xs) ys = ground (arith, has-append y xs ys)

pub has-without :
    (x y : ℕ) (xs : List ℕ) → has y (select (λ z. not (z == x)) xs) ≡ (not (y == x) && has y xs)
has-without x y [] = ground arith
has-without x y (z ∷ zs) = ground (arith, has-without x y zs)

has-at : (x y : ℕ) (ys : List ℕ) → (y == x) ≡ true → has y ys ≡ has x ys
has-at x y ys e = ground arith

pub has-except :
    (y : ℕ) (xs ys : List ℕ)
    → has y (select (λ z. not (has z ys)) xs) ≡ (has y xs && not (has y ys))
has-except y [] ys = refl
has-except y (x ∷ xs) ys = ground (arith, has-except y xs ys, has-at x y ys)

abbrev pub listed : Bitfields (List ℕ)
listed = record {
  new = [];
  elements = sorted;
  set = λ x b. x ∷ b;
  unset = λ x b. select (λ z. not (z == x)) b;
  merge = λ a b. got (a ++ b);
  subtract = λ a b. got (select (λ z. not (has z b)) a);
  count = λ b. got (length (sorted b));
  ascending = sorted-Ascending;
  new_sound = refl;
  set_sound = λ x y b. rw (has-sorted y (x ∷ b), has-sorted y b);
  unset_sound =
      λ x y b. rw (has-sorted y (select (λ z. not (z == x)) b), has-sorted y b, has-without x y b);
  merge_sound = λ a b c y h. rw (
    sym (got_injective h),
    has-sorted y (a ++ b),
    has-sorted y a,
    has-sorted y b,
    has-append y a b,
  );
  subtract_sound = λ a b c y h. rw (
    sym (got_injective h),
    has-sorted y (select (λ z. not (has z b)) a),
    has-sorted y a,
    has-sorted y b,
    has-except y a b,
  );
  count_sound = λ b n h. sym (got_injective h);
}
