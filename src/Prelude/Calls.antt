-- ===== src/Prelude/Calls.antt =====
-- The outcome of a call of a library or a service, and sequences of such calls.
use Prim.Native.String.{String}
use mathlib.Core.Path.{◌≡◌, refl}

pub data Called {ℓ} (A : Type ℓ) : Type ℓ where
  got : A → Called A
  lost : String → Called A

-- The first call that is lost ends the sequence.
infixl 5 ◌>>=◌ ◌>>◌
abbrev pub ◌>>=◌ {ℓ κ} : {A : Type ℓ} {B : Type κ} → Called A → (A → Called B) → Called B
got a >>= f = f a
lost e >>= f = lost e

abbrev pub ◌>>◌ {ℓ κ} : {A : Type ℓ} {B : Type κ} → Called A → Called B → Called B
m >> k = m >>= λ _. k

-- The steps of a sequence that got to its end.
pub bind_got {ℓ κ} :
    {A : Type ℓ} {B : Type κ} (m : Called A) (f : A → Called B) {b : B}
    → (m >>= f) ≡ got b
    → (a : A) × (m ≡ got a) × (f a ≡ got b)
bind_got (got a) f h = (a, refl, h)
bind_got (lost e) f h = cc

pub got_injective {ℓ} : {A : Type ℓ} {x y : A} → got x ≡ got y → x ≡ y
got_injective h = cc
