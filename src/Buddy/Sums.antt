-- ===== src/Buddy/Sums.antt =====
-- Sums over the orders.
use mips.Base.{ℕ, zero, suc, ◌+◌, ◌*◌, ◌<◌, ◌≤◌, ◌≡◌, ◌==◌, false, arith, ℕ-cases, inl, inr, ==_ne}

unfoldable pub sum_below : ℕ → (ℕ → ℕ) → ℕ
sum_below zero f = 0
sum_below (suc n) f = sum_below n f + f n

pub sum_below-same :
    (n : ℕ) (f g : ℕ → ℕ) → ((j : ℕ) → j < n → g j ≡ f j) → sum_below n g ≡ sum_below n f
unfolding sum_below
sum_below-same zero f g h = omega arith
sum_below-same (suc n) f g h =
    omega (arith, sum_below-same n f g (λ j k. h j (omega arith)), h n (omega arith))

-- A change at one order.
pub sum_below-change :
    (n k : ℕ) (f g : ℕ → ℕ)
    → k < n
    → ((j : ℕ) → j < n → (j == k) ≡ false → g j ≡ f j)
    → sum_below n g + f k ≡ sum_below n f + g k
unfolding sum_below
sum_below-change zero k f g h e = absurd (omega arith)
sum_below-change (suc n) k f g h e = elim (ℕ-cases n k) [
  | inl q ↦ rw q (
      omega (
        arith,
        sum_below-same k f g (λ j l. e j (omega arith) (==_ne j k (λ r. absurd (omega arith)))),
      ))
  | inr q ↦ omega (
    arith,
    sum_below-change n k f g (omega arith) (λ j l. e j (omega arith)),
    e n (omega arith) (==_ne n k q),
  )
]

pub le-sum_below : (n k : ℕ) (f : ℕ → ℕ) → k < n → f k ≤ sum_below n f
unfolding sum_below
le-sum_below zero k f h = absurd (omega arith)
le-sum_below (suc n) k f h = elim (ℕ-cases n k) [
  | inl q ↦ rw q (omega arith)
  | inr q ↦ omega (arith, le-sum_below n k f (omega arith))
]

pub sum_below-zero : (n : ℕ) (f : ℕ → ℕ) → ((j : ℕ) → j < n → f j ≡ 0) → sum_below n f ≡ 0
unfolding sum_below
sum_below-zero zero f h = omega arith
sum_below-zero (suc n) f h =
    omega (arith, sum_below-zero n f (λ j k. h j (omega arith)), h n (omega arith))

pub sum_below-le : (n b : ℕ) (f : ℕ → ℕ) → ((j : ℕ) → f j ≤ b) → sum_below n f ≤ n * b
unfolding sum_below
sum_below-le zero b f h = omega arith
sum_below-le (suc n) b f h = omega (arith, sum_below-le n b f h, h n, next)
  where
    next : suc n * b ≡ n * b + b
    next = grind arith
