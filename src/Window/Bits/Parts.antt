-- ===== src/Window/Bits/Parts.antt =====
-- An ascending list split by a test: the two parts have its length together.
use filecoin_sealer.Prelude.{
  ℕ, ◌+◌, ◌<◌, ◌≡◌, refl, sym, ap, ◌∙◌, Bool, true, not, ◌&&◌, ◌==◌, List, [], ◌∷◌, All, length,
  select, arith,
}
use filecoin_sealer.Window.Bits.Order.{has, Ascending, has-equal}

All-select :
    (p : ℕ → Bool) (l : ℕ) (xs : List ℕ) → All (λ y. l < y) xs → All (λ y. l < y) (select p xs)
All-select p l [] a = tt
All-select p l (x ∷ xs) a = ground (arith, All-select p l xs)

select-Ascending : (p : ℕ → Bool) (xs : List ℕ) → Ascending xs → Ascending (select p xs)
select-Ascending p [] a = tt
select-Ascending p (x ∷ xs) a = ground (arith, select-Ascending p xs, All-select p x xs)

same_test : (p : ℕ → Bool) (z x : ℕ) → (z == x) ≡ true → p z ≡ p x
same_test p z x h = ap p (ground arith)

has-select : (p : ℕ → Bool) (z : ℕ) (xs : List ℕ) → has z (select p xs) ≡ (has z xs && p z)
has-select p z [] = refl
has-select p z (x ∷ xs) = ground (arith, has-select p z xs, same_test p z x)

length-select :
    (p : ℕ → Bool) (xs : List ℕ)
    → length xs ≡ length (select p xs) + length (select (λ z. not (p z)) xs)
length-select p [] = refl
length-select p (x ∷ xs) = ground (arith, length-select p xs)

pub parts-length :
    (p : ℕ → Bool) (all xs ys : List ℕ)
    → Ascending all
    → Ascending xs
    → Ascending ys
    → ((z : ℕ) → has z xs ≡ (has z all && p z))
    → ((z : ℕ) → has z ys ≡ (has z all && not (p z)))
    → length all ≡ length xs + length ys
parts-length p all xs ys a ax ay hx hy =
    let ex : xs ≡ select p all =
      has-equal xs (select p all) ax (select-Ascending p all a)
        (λ z. hx z ∙ sym (has-select p z all)) in
    let ey : ys ≡ select (λ z. not (p z)) all =
      has-equal ys (select (λ z. not (p z)) all) ay (select-Ascending (λ z. not (p z)) all a)
        (λ z. hy z ∙ sym (has-select (λ x. not (p x)) z all)) in
    rw (ex, ey) (length-select p all)
