-- ===== src/Window/Bits.antt =====
-- The library go-bitfield, sets of sector numbers, as far as the window proofs rely on it: a value
-- is known by the ascending list that `ForEach` goes over.
use filecoin_sealer.Prelude.{
  ℕ, ◌≡◌, Bool, true, false, not, ◌&&◌, ◌||◌, ◌==◌, ltb, List, [], ◌∷◌, All, length, Called, got,
}
mod Order
mod Parts
pub use Order.*
pub use Parts.{parts-length}

pub record Bitfields (B : Type 0) : Type 0 where
  pub new : B
  -- What `ForEach` is called with, in its order.
  pub elements : B → List ℕ
  pub set : ℕ → B → B
  pub unset : ℕ → B → B
  -- `MergeBitFields`
  pub merge : B → B → Called B
  -- `SubtractBitField`
  pub subtract : B → B → Called B
  pub count : B → Called ℕ
  pub ascending : (b : B) → Ascending (elements b)
  pub new_sound : elements new ≡ []
  pub set_sound : (x y : ℕ) (b : B) → has y (elements (set x b)) ≡ ((y == x) || has y (elements b))
  pub unset_sound :
      (x y : ℕ) (b : B) → has y (elements (unset x b)) ≡ (not (y == x) && has y (elements b))
  pub merge_sound :
      (a b c : B) (y : ℕ)
      → merge a b ≡ got c
      → has y (elements c) ≡ (has y (elements a) || has y (elements b))
  pub subtract_sound :
      (a b c : B) (y : ℕ)
      → subtract a b ≡ got c
      → has y (elements c) ≡ (has y (elements a) && not (has y (elements b)))
  pub count_sound : (b : B) (n : ℕ) → count b ≡ got n → n ≡ length (elements b)

-- No operation of the library fails.
pub record Reliable {B : Type 0} (bits : Bitfields B) : Type 0 where
  pub merges : (a b : B) → (c : B) × (bits.merge a b ≡ got c)
  pub counts : (b : B) → (n : ℕ) × (bits.count b ≡ got n)
