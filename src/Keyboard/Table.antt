-- ===== src/Keyboard/Table.antt =====
-- A list from the numbers that `waiting` gives, for the ring of Kernel/drivers/keyboard_driver.c.
use so_bare_bones.Common.{
  ℕ, zero, suc, ◌+◌, ◌<◌, ◌≡◌, List, [], ◌∷◌, ◌++◌, length, length-append, refl, arith,
}
use so_bare_bones.Keyboard.Line.{take_last}

-- The first `n` values of `f`.
unfoldable pub table : (ℕ → ℕ) → ℕ → List ℕ
table f zero = []
table f (suc n) = table f n ++ f n ∷ []

pub table_congr : (f g : ℕ → ℕ) (n : ℕ) → ((j : ℕ) → j < n → f j ≡ g j) → table f n ≡ table g n
unfolding table
table_congr f g zero h = refl
table_congr f g (suc n) h = rw (table_congr f g n (λ j lt. h j (omega arith)), h n (omega arith))

pub table-front : (f : ℕ → ℕ) (n : ℕ) → table f (suc n) ≡ f 0 ∷ table (λ j. f (j + 1)) n
unfolding table
table-front f zero = refl
table-front f (suc n) = let sum : n + 1 ≡ suc n = omega arith in rw (table-front f n, sum)

pub length-table : (f : ℕ → ℕ) (n : ℕ) → length (table f n) ≡ n
unfolding table
length-table f zero = refl
length-table f (suc n) = omega (arith, length-append (table f n) (f n ∷ []), length-table f n)

pub take_last-append : (l : List ℕ) (c : ℕ) → take_last (l ++ c ∷ []) ≡ (l, c)
unfolding take_last
take_last-append [] c = refl
take_last-append (x ∷ []) c = refl
take_last-append (x ∷ y ∷ l) c = rw (take_last-append (y ∷ l) c)
