-- ===== src/Print/Divide.antt =====
-- The division by ten of the printer.
use mips.Base.{ℕ, ◌+◌, ◌*◌, ◌/◌, ◌^◌, ◌<◌, ◌≤◌, ◌≡◌, arith}
use mips.Print.{mulu10, divu10, divu5}

estimate :
    (n : ℕ)
    → n < 2 ^ 32
    → let q0 = n / 2 + n / 4 in
      let q1 = q0 + q0 / 2 ^ 4 in
      let q2 = q1 + q1 / 2 ^ 8 in
      let q3 = q2 + q2 / 2 ^ 16 in let q = q3 / 2 ^ 3 in (q * 10 ≤ n) × (n < q * 10 + 20)
estimate n h = omega arith

pub mulu10-mul : (n : ℕ) → n * 10 < 2 ^ 32 → mulu10 n ≡ n * 10
unfolding mulu10
mulu10-mul n h = omega arith

-- `__divu10` divides every 32-bit number by ten.
pub divu10-div : (n : ℕ) → n < 2 ^ 32 → divu10 n ≡ n / 10
unfolding divu10
divu10-div n h = let (a, b) = estimate n h in omega (arith, a, b)

estimate5 :
    (n : ℕ)
    → n < 2 ^ 32
    → let q0 = n / 2 ^ 3 + n / 2 ^ 4 in
      let q1 = q0 + q0 / 2 ^ 4 in
      let q2 = q1 + q1 / 2 ^ 8 in let q = q2 + q2 / 2 ^ 16 in (q * 5 ≤ n) × (n < q * 5 + 40)
estimate5 n h = omega arith

-- `__divu5` divides every 32-bit number by five.
pub divu5-div : (n : ℕ) → n < 2 ^ 32 → divu5 n ≡ n / 5
unfolding divu5
divu5-div n h = let (a, b) = estimate5 n h in omega (arith, a, b)
