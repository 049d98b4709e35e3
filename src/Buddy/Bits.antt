-- ===== src/Buddy/Bits.antt =====
-- The index of a block and that of its buddy: `&` and `^` at multiples of a power of 2.
use Prim.Native.Nat.{digits, differ, bit_and-bitwise, bit_or-bitwise, bit_xor-bitwise}
use mips.Base.{
  ℕ, zero, suc, ◌+◌, ◌-◌, ◌*◌, ◌/◌, ◌%◌, ◌^◌, ◌<◌, ◌≤◌, ◌==◌, ◌≡◌, refl, ap, ◌∙◌, sym, min, max,
  bit_and, bit_or, bit_xor, if◌then◌else◌, arith,
}

-- An operation on digits, lowest first; `z` is what is left of the second number behind the first.
module _ (z : ℕ → ℕ) (f : ℕ → ℕ → ℕ) where
  -- Every count of digits from the first number on gives the same.
  count-enough : (n m a b : ℕ) → a ≤ n → a ≤ m → digits z f n a b ≡ digits z f m a b
  count-enough zero zero a b i j = refl
  count-enough zero (suc m) zero b i j = refl
  count-enough (suc n) zero zero b i j = refl
  count-enough (suc n) (suc m) zero b i j = refl
  count-enough zero (suc m) (suc a) b i j = absurd (omega arith)
  count-enough (suc n) zero (suc a) b i j = absurd (omega arith)
  count-enough (suc n) (suc m) (suc a) b i j =
      ap (λ k. k * 2 + f (suc a % 2) (b % 2))
        (count-enough n m (suc a / 2) (b / 2) (omega arith) (omega arith))

  lowest-digit :
      ((b : ℕ) → z b ≡ z (b / 2) * 2 + f 0 (b % 2))
      → (a b : ℕ) → digits z f a a b ≡ digits z f (a / 2) (a / 2) (b / 2) * 2 + f (a % 2) (b % 2)
  lowest-digit law zero b = law b
  lowest-digit law (suc a) b =
      ap (λ k. k * 2 + f (suc a % 2) (b % 2))
        (count-enough a (suc a / 2) (suc a / 2) (b / 2) (omega arith) (omega arith))

pub and-lowest : (a b : ℕ) → bit_and a b ≡ bit_and (a / 2) (b / 2) * 2 + min (a % 2) (b % 2)
and-lowest a b =
    bit_and-bitwise a b
    ∙ lowest-digit (λ _. 0) min (λ c. omega arith) a b
    ∙ ap (λ k. k * 2 + min (a % 2) (b % 2)) (sym (bit_and-bitwise (a / 2) (b / 2)))

pub or-lowest : (a b : ℕ) → bit_or a b ≡ bit_or (a / 2) (b / 2) * 2 + max (a % 2) (b % 2)
or-lowest a b =
    bit_or-bitwise a b
    ∙ lowest-digit (λ c. c) max (λ c. omega arith) a b
    ∙ ap (λ k. k * 2 + max (a % 2) (b % 2)) (sym (bit_or-bitwise (a / 2) (b / 2)))

xor-lowest : (a b : ℕ) → bit_xor a b ≡ bit_xor (a / 2) (b / 2) * 2 + differ (a % 2) (b % 2)
xor-lowest a b =
    bit_xor-bitwise a b
    ∙ lowest-digit (λ c. c) differ (λ c. omega arith) a b
    ∙ ap (λ k. k * 2 + differ (a % 2) (b % 2)) (sym (bit_xor-bitwise (a / 2) (b / 2)))

-- By halves.
pub halving : (P : ℕ → Type 0) → P 0 → ((a : ℕ) → P (a / 2) → P a) → (n a : ℕ) → a ≤ n → P a
halving P p0 step n zero h = p0
halving P p0 step zero (suc a) h = absurd (omega arith)
halving P p0 step (suc n) (suc a) h = step (suc a) (halving P p0 step n (suc a / 2) (omega arith))

differ-zero : (d : ℕ) → differ d 0 ≡ d
differ-zero zero = refl
differ-zero (suc d) = refl

xor-zero : (a : ℕ) → bit_xor a 0 ≡ a
xor-zero a =
    halving (λ m. bit_xor m 0 ≡ m) refl
      (λ m h. omega (arith, xor-lowest m 0, h, differ-zero (m % 2))) a a (omega arith)

pub and-zero : (a : ℕ) → bit_and a 0 ≡ 0
and-zero a =
    halving (λ m. bit_and m 0 ≡ 0) refl (λ m h. omega (arith, and-lowest m 0, h)) a a (omega arith)

and_self : (a : ℕ) → bit_and a a ≡ a
and_self a =
    halving (λ m. bit_and m m ≡ m) refl (λ m h. omega (arith, and-lowest m m, h)) a a (omega arith)

-- Which of two neighbours.
abbrev pub sibling : ℕ → ℕ
sibling m = if m % 2 == 0 then m + 1 else m - 1

differ-one : (d : ℕ) → d < 2 → differ d 1 ≡ 1 - d
differ-one zero h = refl
differ-one (suc zero) h = refl
differ-one (suc (suc d)) h = absurd (omega arith)

xor-sibling : (m : ℕ) → bit_xor m 1 ≡ sibling m
xor-sibling m = ground (arith, xor-lowest m 1, xor-zero (m / 2), differ-one (m % 2) (omega arith))

-- Both numbers doubled.
module _ (a b : ℕ) where
  half : (c : ℕ) → c * 2 / 2 ≡ c
  half c = omega arith

  even : (c : ℕ) → c * 2 % 2 ≡ 0
  even c = omega arith

  xor-double : bit_xor (a * 2) (b * 2) ≡ bit_xor a b * 2
  xor-double = xor-lowest (a * 2) (b * 2) ∙ rw (half a, half b, even a, even b) (omega arith)

  and-double : bit_and (a * 2) (b * 2) ≡ bit_and a b * 2
  and-double = and-lowest (a * 2) (b * 2) ∙ rw (half a, half b, even a, even b) (omega arith)

  and-double_odd : bit_and (a * 2) (b * 2 + 1) ≡ bit_and a b * 2
  and-double_odd = and-lowest (a * 2) (b * 2 + 1) ∙ rw (half a, half_odd, even a) (omega arith)
    where
      half_odd : (b * 2 + 1) / 2 ≡ b
      half_odd = omega arith

pow-two : (k : ℕ) → 2 ^ suc k ≡ 2 ^ k * 2
pow-two k = omega arith

pub pow_pos : (k : ℕ) → 0 < 2 ^ k
pow_pos zero = omega arith
pow_pos (suc k) = omega (arith, pow_pos k)

pow-suc : (m k : ℕ) → m * 2 ^ suc k ≡ m * 2 ^ k * 2
pow-suc m k = grind arith

times_one : (m : ℕ) → m * 2 ^ 0 ≡ m
times_one m = omega arith

pub xor-block : (k m : ℕ) → bit_xor (m * 2 ^ k) (2 ^ k) ≡ sibling m * 2 ^ k
xor-block zero m = rw (times_one m, times_one (sibling m)) (xor-sibling m)
xor-block (suc k) m =
    rw (pow-suc m k, pow-suc (sibling m) k, pow-two k)
      (xor-double (m * 2 ^ k) (2 ^ k) ∙ ap (λ n. n * 2) (xor-block k m))

and-neighbour : (m : ℕ) → bit_and m (sibling m) ≡ m / 2 * 2
and-neighbour m =
    let (h, z) = digits_of m in
    and-lowest m (sibling m) ∙ rw (h, z) (omega (arith, and_self (m / 2)))
  where
    digits_of : (n : ℕ) → (sibling n / 2 ≡ n / 2) × (min (n % 2) (sibling n % 2) ≡ 0)
    digits_of n = ground arith

pub and-sibling : (k m : ℕ) → bit_and (m * 2 ^ k) (sibling m * 2 ^ k) ≡ m / 2 * 2 ^ suc k
and-sibling zero m = rw (times_one m, times_one (sibling m)) (and-neighbour m)
and-sibling (suc k) m =
    rw (pow-suc m k, pow-suc (sibling m) k, pow-suc (m / 2) (suc k))
      (and-double (m * 2 ^ k) (sibling m * 2 ^ k) ∙ ap (λ n. n * 2) (and-sibling k m))

pub and-mask : (k m : ℕ) → bit_and (m * 2 ^ k) (2 ^ k - 1) ≡ 0
and-mask zero m = and-zero (m * 1)
and-mask (suc k) m =
    rw (pow-suc m k, ones k) (and-double_odd (m * 2 ^ k) (2 ^ k - 1) ∙ omega (arith, and-mask k m))
  where
    ones : (k : ℕ) → 2 ^ suc k - 1 ≡ (2 ^ k - 1) * 2 + 1
    ones k = omega (arith, pow_pos k)

pub and-bit : (k m : ℕ) → bit_and (m * 2 ^ k) (2 ^ k) ≡ m % 2 * 2 ^ k
and-bit zero m =
    rw (times_one m, times_one (m % 2))
      (and-lowest m 1 ∙ omega (arith, and-zero (m / 2), least (m % 2) (omega arith)))
  where
    least : (d : ℕ) → d < 2 → min d 1 ≡ d
    least d h = omega arith
and-bit (suc k) m =
    rw (pow-suc m k, pow-suc (m % 2) k, pow-two k)
      (and-double (m * 2 ^ k) (2 ^ k) ∙ ap (λ n. n * 2) (and-bit k m))
