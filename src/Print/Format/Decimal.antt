-- ===== src/Print/Format/Decimal.antt =====
-- What `%d` prints.
use mips.Base.{
  ℕ, ◌-◌, ◌%◌, ◌^◌, ◌<◌, ◌≡◌, refl, true, false, some, List, [], ◌∷◌, ◌++◌, length, map, leb,
  if◌then◌else◌, arith, Bool-cases, inl, inr,
}
use mips.Print.{digit_char}
use mips.Print.Number.{IsNumeral, fill, printnum-IsNumeral}
use mips.Print.Format.{
  Arg, int_arg, Conv, sign_extend, above, print_number, print_decimal, va_int, getint,
}

-- The sign of a word of 32 bits, and how far it is from 0.
abbrev pub sign : ℕ → List ℕ
sign n = if leb (2 ^ 31) n then 45 ∷ [] else []

abbrev pub magnitude : ℕ → ℕ
magnitude n = if leb (2 ^ 31) n then 2 ^ 32 - n else n

print_number-IsNumeral :
    (c : Conv) (num : ℕ)
    → num < 2 ^ 32
    → (l : List ℕ) × (print_number c num 10
        ≡ some (fill (above c.width - length l) c.padc ++ map digit_char l))
      × IsNumeral 10 num l
unfolding print_number
print_number-IsNumeral c num h = rw (small num h) (
    printnum-IsNumeral 11 num 10 (above c.width) c.padc (inr (inl refl)) h (omega arith)
      (omega arith))
  where
    small : (n : ℕ) → n < 2 ^ 32 → n % 2 ^ 32 ≡ n
    small n k = omega arith

getint-word :
    (n : ℕ) (args : List Arg) (lflag : ℕ)
    → lflag < 2
    → getint (int_arg n ∷ args) lflag ≡ some (sign_extend n, args)
unfolding getint va_int
getint-word n args lflag h = let short : leb 2 lflag ≡ false = ground arith in rw short refl

-- The case of a negative number, and the other one.
print_decimal-below :
    (c : Conv) (n : ℕ) (args : List Arg) (out : List ℕ)
    → n < 2 ^ 32
    → c.lflag < 2
    → leb (2 ^ 31) n ≡ true
    → print_number c (2 ^ 32 - n) 10 ≡ some out
    → print_decimal c (int_arg n ∷ args) ≡ some (45 ∷ out, args)
unfolding print_decimal
print_decimal-below c n args out h f e run =
    let big : leb (2 ^ 63) (sign_extend n) ≡ true = ground arith in
    let same : 2 ^ 64 - sign_extend n ≡ 2 ^ 32 - n = ground arith in
    rw (getint-word n args c.lflag f, big, same, run) refl

print_decimal-above :
    (c : Conv) (n : ℕ) (args : List Arg) (out : List ℕ)
    → c.lflag < 2
    → leb (2 ^ 31) n ≡ false
    → print_number c n 10 ≡ some out
    → print_decimal c (int_arg n ∷ args) ≡ some (out, args)
unfolding print_decimal
print_decimal-above c n args out f e run =
    let big : leb (2 ^ 63) (sign_extend n) ≡ false = ground arith in
    let same : sign_extend n ≡ n = ground arith in
    rw (getint-word n args c.lflag f, big, same, run) refl

-- `%d` takes a word of 32 bits and prints a minus sign when it stands for a negative number, then
-- the pads that the width leaves room for, then the digits of the distance from 0, with no zero in
-- front.
pub print_decimal-IsNumeral :
    (c : Conv) (n : ℕ) (args : List Arg)
    → n < 2 ^ 32
    → c.lflag < 2
    → (l : List ℕ) × (print_decimal c (int_arg n ∷ args)
        ≡ some (sign n ++ (fill (above c.width - length l) c.padc ++ map digit_char l), args))
      × IsNumeral 10 (magnitude n) l
print_decimal-IsNumeral c n args h f = elim (Bool-cases (leb (2 ^ 31) n)) [
  | inl e ↦
      let (l, run, i) = print_number-IsNumeral c (2 ^ 32 - n) (ground arith) in
      (l, rw e (print_decimal-below c n args _ h f e run), rw e i)
  | inr e ↦
      let (l, run, i) = print_number-IsNumeral c n h in
      (l, rw e (print_decimal-above c n args _ f e run), rw e i)
]
