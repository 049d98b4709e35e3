-- ===== src/Print.antt =====
-- Formatted output: kern/libs/printfmt.c, with the divisions of kern/include/thumips.h. What is
-- printed is a list of characters.
pub mod Number
pub mod Errors
pub mod Format
pub mod Buffer
pub mod Divide
mod Tests
use mips.Base.{
  ℕ, zero, suc, ◌+◌, ◌-◌, ◌*◌, ◌/◌, ◌%◌, ◌^◌, ◌==◌, Bool, true, false, Option, none, some, List, [],
  ◌∷◌, ◌++◌, ltb, leb, if◌then◌else◌, ◌&&◌, ◌||◌, not, ◌>>=◌,
}

-- `__mulu10`; a shift to the left may lose bits.
pub mulu10 : ℕ → ℕ
mulu10 n = ((n * 2 ^ 3) % 2 ^ 32 + (n * 2 ^ 1) % 2 ^ 32) % 2 ^ 32

-- `__divu10`; its sums stay below 2 ^ 32.
pub divu10 : ℕ → ℕ
unfolding mulu10
divu10 n =
    let q0 = n / 2 + n / 4 in
    let q1 = q0 + q0 / 2 ^ 4 in
    let q2 = q1 + q1 / 2 ^ 8 in
    let q3 = q2 + q2 / 2 ^ 16 in
    let q = q3 / 2 ^ 3 in let r = (n + 2 ^ 32 - mulu10 q) % 2 ^ 32 in q + (r + 6) / 2 ^ 4

-- `__divu5`
pub divu5 : ℕ → ℕ
divu5 n =
    let q0 = n / 2 ^ 3 + n / 2 ^ 4 in
    let q1 = q0 + q0 / 2 ^ 4 in
    let q2 = q1 + q1 / 2 ^ 8 in
    let q = q2 + q2 / 2 ^ 16 in
    let r = (n + 2 ^ 32 - (q * 5) % 2 ^ 32) % 2 ^ 32 in q + ((13 * r) % 2 ^ 32) / 2 ^ 6

-- `"0123456789abcdef"[mod]`
abbrev pub digit_char : ℕ → ℕ
digit_char d = if ltb d 10 then 48 + d else 87 + d

-- The quotient and the remainder that `printnum` goes by.
pub quotient : (num base : ℕ) → ℕ
quotient num base =
    if base == 10 then divu10 num else if base == 8 then num / 2 ^ 3 else num / 2 ^ 4

pub remainder : (num base : ℕ) → ℕ
remainder num base =
    if base == 10
    then (num + 2 ^ 32 - mulu10 (divu10 num)) % 2 ^ 32
    else if base == 8
    then num % 2 ^ 3
    else num % 2 ^ 4

-- `while (-- width > 0) putch(padc, …)`
pub pads : (width padc : ℕ) → List ℕ
pads zero padc = []
pads (suc zero) padc = []
pads (suc (suc width)) padc = padc ∷ pads (suc width) padc

-- `printnum`, on fuel; a width below 0 pads as 0 does.
pub printnum : (fuel num base width padc : ℕ) → Option (List ℕ)
unfolding pads quotient remainder
printnum zero num base width padc = none
printnum (suc fuel) num base width padc =
    let last = digit_char (remainder num base) in
    elim (leb base num) [
      | true ↦ (do
        front ← printnum fuel (quotient num base) base (width - 1) padc
        some (front ++ (last ∷ [])))
      | false ↦ some (pads width padc ++ (last ∷ []))
    ]
