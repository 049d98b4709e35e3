-- ===== src/Paging/Entry.antt =====
-- The words of page tables: an entry of a page and its flags, read back.
use Prim.Native.Nat.{bit_or-bitwise}
use mips.Base.{
  ℕ, zero, suc, ◌+◌, ◌*◌, ◌/◌, ◌%◌, ◌^◌, ◌<◌, ◌==◌, ◌≡◌, refl, ◌∙◌, max, bit_and, bit_or, true, not,
  arith,
}
use mips.Proc.{has_flag}
use mips.Buddy.Bits.{halving, or-lowest, and-lowest, and-zero}
use mips.Paging.{present, page2pa, pte_addr, ppn, pte_p, pte_user}

or-zero : (a : ℕ) → bit_or a 0 ≡ a
or-zero a =
    halving (λ m. bit_or m 0 ≡ m) refl (λ m h. omega (arith, or-lowest m 0, h, most (m % 2))) a a
      (omega arith)
  where
    most : (d : ℕ) → max d 0 ≡ d
    most d = omega arith

zero-or : (a : ℕ) → bit_or 0 a ≡ a
zero-or a = bit_or-bitwise 0 a

pow_double : (m k : ℕ) → m * 2 ^ suc k ≡ m * 2 ^ k * 2
pow_double m k = grind arith

-- Digits below those of a multiple of a power of 2.
or-split : (k m a b : ℕ) → a < 2 ^ k → b < 2 ^ k → bit_or (m * 2 ^ k + a) b ≡ m * 2 ^ k + bit_or a b
or-split zero m a b h i =
    let none_a : a ≡ 0 = omega arith in
    let none_b : b ≡ 0 = omega arith in rw (none_a, none_b, or-zero (m * 2 ^ 0 + 0)) (omega arith)
or-split (suc k) m a b h i =
    let next = or-split k m (a / 2) (b / 2) (omega arith) (omega arith) in
    let half : (m * 2 ^ suc k + a) / 2 ≡ m * 2 ^ k + a / 2 = omega (arith, pow_double m k) in
    let digit : (m * 2 ^ suc k + a) % 2 ≡ a % 2 = omega (arith, pow_double m k) in
    or-lowest (m * 2 ^ suc k + a) b
    ∙ rw (half, digit, next) (omega (arith, pow_double m k, or-lowest a b))

-- The page that an entry names.
abbrev pub page_of : ℕ → ℕ
page_of pte = ppn (pte_addr pte)

-- `page2pa(page) | PTE_P | perm`
abbrev pub entry : (page perm : ℕ) → ℕ
entry page perm = bit_or (bit_or (page2pa page) pte_p) perm

pub table_entry-value : (p : ℕ) → p < 2 ^ 19 → bit_or (page2pa p) 7 ≡ (0x8_0000 + p) * 4096 + 7
table_entry-value p h =
    let at : page2pa p ≡ (0x8_0000 + p) * 2 ^ 12 + 0 = omega arith in
    rw at (or-split 12 (0x8_0000 + p) 0 7 (omega arith) (omega arith))

pub entry-value :
    (p perm : ℕ)
    → p < 2 ^ 19
    → perm < 4096
    → entry p perm ≡ (0x8_0000 + p) * 4096 + (perm / 2 * 2 + 1)
entry-value p perm h l =
    let at : page2pa p ≡ (0x8_0000 + p) * 2 ^ 12 + 0 = omega arith in
    let one = or-split 12 (0x8_0000 + p) 0 1 (omega arith) (omega arith) in
    let low : bit_or 1 perm ≡ perm / 2 * 2 + 1 =
      omega (arith, or-lowest 1 perm, zero-or (perm / 2)) in
    rw (at, one)
      (or-split 12 (0x8_0000 + p) 1 perm (omega arith) (omega arith) ∙ omega (arith, low))

pub present_iff : (w : ℕ) → present w ≡ not (w % 2 == 0)
unfolding has_flag
present_iff w =
    let least : bit_and w 1 ≡ w % 2 = omega (arith, and-lowest w 1, and-zero (w / 2)) in
    rw least refl

pub user_bits : (w : ℕ) → bit_and w pte_user ≡ w % 8
user_bits w = omega (
  arith,
  and-lowest w 7,
  and-lowest (w / 2) 3,
  and-lowest (w / 2 / 2) 1,
  and-zero (w / 2 / 2 / 2),
)

pub page_of-high : (p low : ℕ) → p < 2 ^ 19 → low < 4096 → page_of ((0x8_0000 + p) * 4096 + low) ≡ p
page_of-high p low h l = omega arith

-- An entry of a page and its flags.
pub page_of-entry : (p perm : ℕ) → p < 2 ^ 19 → perm < 4096 → page_of (entry p perm) ≡ p
page_of-entry p perm h l =
    rw (entry-value p perm h l) (page_of-high p (perm / 2 * 2 + 1) h (omega arith))

pub present-entry : (p perm : ℕ) → p < 2 ^ 19 → perm < 4096 → present (entry p perm) ≡ true
present-entry p perm h l = present_iff (entry p perm) ∙ rw (entry-value p perm h l) (ground arith)

pub user-entry :
    (p perm : ℕ) → p < 2 ^ 19 → perm < 4096 → bit_and (entry p perm) pte_user ≡ perm % 8 / 2 * 2 + 1
user-entry p perm h l = user_bits (entry p perm) ∙ rw (entry-value p perm h l) (omega arith)
