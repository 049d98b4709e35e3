-- ===== src/Buddy/Pair.antt =====
-- The places of a block and its buddy.
use mips.Base.{
  ℕ, suc, ◌+◌, ◌*◌, ◌/◌, ◌%◌, ◌^◌, ◌==◌, ◌≡◌, ap, sym, ◌∙◌, true, false, arith, inl, inr,
  Bool-cases,
}
use mips.Buddy.Bits.{sibling}
use mips.Buddy.Blocks.{in_block, in_block-halves}

-- A block and its buddy are the block of the next order.
even_times : (h t : ℕ) → h * 2 * t ≡ h * (t * 2)
even_times h t = grind arith

odd_times : (h t : ℕ) → (h * 2 + 1) * t ≡ h * (t * 2) + t
odd_times h t = grind arith

places-even :
    (m t : ℕ)
    → (m % 2 == 0) ≡ true
    → (m * t ≡ m / 2 * (t * 2)) × (sibling m * t ≡ m / 2 * (t * 2) + t)
places-even m t e =
    let here : m ≡ m / 2 * 2 = ground arith in
    let next : sibling m ≡ m / 2 * 2 + 1 = rw e (ground arith) in
    (ap (λ n. n * t) here ∙ even_times (m / 2) t, ap (λ n. n * t) next ∙ odd_times (m / 2) t)

places-odd :
    (m t : ℕ)
    → (m % 2 == 0) ≡ false
    → (m * t ≡ m / 2 * (t * 2) + t) × (sibling m * t ≡ m / 2 * (t * 2))
places-odd m t e =
    let here : m ≡ m / 2 * 2 + 1 = ground arith in
    let next : sibling m ≡ m / 2 * 2 = rw e (ground arith) in
    (ap (λ n. n * t) here ∙ odd_times (m / 2) t, ap (λ n. n * t) next ∙ even_times (m / 2) t)

double_pow : (m k : ℕ) → m * 2 ^ suc k ≡ m * (2 ^ k * 2)
double_pow m k = grind arith

pub in_block-buddies :
    (k b m q : ℕ)
    → in_block (suc k) (b + m / 2 * 2 ^ suc k) q
      ≡ in_block k (b + m * 2 ^ k) q + in_block k (b + sibling m * 2 ^ k) q
in_block-buddies k b m q =
    in_block-halves k (b + m / 2 * 2 ^ suc k) q ∙ elim (Bool-cases (m % 2 == 0)) [
      | inl e ↦
          let (here, next) = places-even m (2 ^ k) e in
          let first : b + m * 2 ^ k ≡ b + m / 2 * 2 ^ suc k =
            omega (arith, here, double_pow (m / 2) k) in
          let second : b + sibling m * 2 ^ k ≡ b + m / 2 * 2 ^ suc k + 2 ^ k =
            omega (arith, next, double_pow (m / 2) k) in
          ap (λ n. in_block k n q + in_block k (b + m / 2 * 2 ^ suc k + 2 ^ k) q) (sym first)
          ∙ ap (λ n. in_block k (b + m * 2 ^ k) q + in_block k n q) (sym second)
      | inr e ↦
          let (here, next) = places-odd m (2 ^ k) e in
          let first : b + m * 2 ^ k ≡ b + m / 2 * 2 ^ suc k + 2 ^ k =
            omega (arith, here, double_pow (m / 2) k) in
          let second : b + sibling m * 2 ^ k ≡ b + m / 2 * 2 ^ suc k =
            omega (arith, next, double_pow (m / 2) k) in
          ap (λ n. in_block k n q + in_block k (b + m / 2 * 2 ^ suc k + 2 ^ k) q) (sym second)
          ∙ ap (λ n. in_block k (b + sibling m * 2 ^ k) q + in_block k n q) (sym first)
          ∙ omega arith
    ]
