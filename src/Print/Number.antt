-- ===== src/Print/Number.antt =====
-- What `printnum` prints, read back.
use mips.Base.{
  ℕ, zero, suc, ◌+◌, ◌-◌, ◌*◌, ◌/◌, ◌%◌, ◌^◌, ◌<◌, ◌≤◌, ◌≡◌, refl, true, false, some, List, [], ◌∷◌,
  ◌++◌, leb, arith, Bool-cases, inl, inr, ◌⊎◌, map, length, length-append, ap, ◌∙◌, sym, All,
}
use mathlib.Core.List.{append_assoc}
use mips.Print.{digit_char, quotient, remainder, pads, printnum}
use mips.Print.Divide.{divu10-div, mulu10-mul}

-- The bases that `printnum` knows.
abbrev pub IsBase : ℕ → Type 0
IsBase b = (b ≡ 8) ⊎ ((b ≡ 10) ⊎ (b ≡ 16))

quotient-div : (num base : ℕ) → IsBase base → num < 2 ^ 32 → quotient num base ≡ num / base
unfolding quotient
quotient-div num base (inl e) h = rw e refl
quotient-div num base (inr (inl e)) h = rw e (divu10-div num h)
quotient-div num base (inr (inr e)) h = rw e refl

remainder-mod : (num base : ℕ) → IsBase base → num < 2 ^ 32 → remainder num base ≡ num % base
unfolding remainder
remainder-mod num base (inl e) h = rw e refl
remainder-mod num base (inr (inl e)) h =
    rw e (rw (divu10-div num h) (rw (mulu10-mul (num / 10) (omega arith)) (omega arith)))
remainder-mod num base (inr (inr e)) h = rw e refl

-- The number that digits stand for, the most significant first.
pub of_digits : (base acc : ℕ) → List ℕ → ℕ
of_digits base acc [] = acc
of_digits base acc (d ∷ l) = of_digits base (acc * base + d) l

of_digits-snoc :
    (base acc d : ℕ) (l : List ℕ)
    → of_digits base acc (l ++ (d ∷ [])) ≡ of_digits base acc l * base + d
unfolding of_digits
of_digits-snoc base acc d [] = refl
of_digits-snoc base acc d (x ∷ l) = of_digits-snoc base (acc * base + x) d l

-- `l` are the digits of `num`, with no zero in front but that of the number 0.
pub record IsNumeral (base num : ℕ) (l : List ℕ) : Type 0 where
  pub value : of_digits base 0 l ≡ num
  pub digits : All (λ d. d < base) l
  pub front : (d : ℕ) (k : List ℕ) → l ≡ d ∷ k → 0 < num → 0 < d
  pub some_digit : 0 < length l

All-snoc : (P : ℕ → Type 0) (l : List ℕ) (d : ℕ) → All P l → P d → All P (l ++ (d ∷ []))
All-snoc P [] d a p = (p, tt)
All-snoc P (x ∷ l) d (a, b) p = (a, All-snoc P l d b p)

pub fill : ℕ → ℕ → List ℕ
fill zero c = []
fill (suc n) c = c ∷ fill n c

pads-fill : (width padc : ℕ) → pads width padc ≡ fill (width - 1) padc
unfolding pads fill
pads-fill zero padc = refl
pads-fill (suc zero) padc = refl
pads-fill (suc (suc width)) padc =
    let n : suc (suc width) - 1 ≡ suc (suc width - 1) = omega arith in
    rw n (ap (λ l. padc ∷ l) (pads-fill (suc width) padc))

-- 8 to the power of `n`.
abbrev pub power_of_8 : ℕ → ℕ
power_of_8 zero = 1
power_of_8 (suc n) = 8 * power_of_8 n

module _ (base num : ℕ) (b : IsBase base) where
  div_add_mod : (num / base) * base + num % base ≡ num
  div_add_mod = elim b [
    | inl e ↦ rw e (omega arith)
    | inr (inl e) ↦ rw e (omega arith)
    | inr (inr e) ↦ rw e (omega arith)
  ]

  mod-lt : num % base < base
  mod-lt = elim b [
    | inl e ↦ rw e (omega arith)
    | inr (inl e) ↦ rw e (omega arith)
    | inr (inr e) ↦ rw e (omega arith)
  ]

  div-lt : (p : ℕ) → num < 8 * p → num / base < p
  div-lt p h = elim b [
    | inl e ↦ rw e (omega arith)
    | inr (inl e) ↦ rw e (omega arith)
    | inr (inr e) ↦ rw e (omega arith)
  ]

  base-least : 8 ≤ base
  base-least = elim b [
    | inl e ↦ omega arith
    | inr (inl e) ↦ omega arith
    | inr (inr e) ↦ omega arith
  ]

  mod_small : num < base → num % base ≡ num
  mod_small h = elim b [
    | inl e ↦ rw e (omega arith)
    | inr (inl e) ↦ rw e (omega arith)
    | inr (inr e) ↦ rw e (omega arith)
  ]

  div-pos : base ≤ num → 0 < num / base
  div-pos h = elim b [
    | inl e ↦ rw e (omega arith)
    | inr (inl e) ↦ rw e (omega arith)
    | inr (inr e) ↦ rw e (omega arith)
  ]

-- The front digit of a longer list is that of the shorter one.
front-snoc :
    (m : List ℕ) (last : ℕ)
    → 0 < length m
    → ((d : ℕ) (k : List ℕ) → m ≡ d ∷ k → 0 < d)
    → (d : ℕ) (k : List ℕ) → m ++ (last ∷ []) ≡ d ∷ k
    → 0 < d
front-snoc [] last p f d k e = absurd (omega arith)
front-snoc (x ∷ m) last p f d k e = grind (arith, f x m refl)

-- The digits of a number that has more than one.
IsNumeral-snoc :
    (base num : ℕ) (l : List ℕ)
    → IsBase base
    → base ≤ num
    → IsNumeral base (num / base) l
    → IsNumeral base num (l ++ (num % base ∷ []))
IsNumeral-snoc base num l b h i = record {
  value = rw (of_digits-snoc base 0 (num % base) l) (rw i.value (div_add_mod base num b));
  digits = All-snoc (λ d. d < base) l (num % base) i.digits (mod-lt base num b);
  front = λ d k e p.
      front-snoc l (num % base) i.some_digit (λ c m q. i.front c m q (div-pos base num b h)) d k e;
  some_digit = omega (arith, length-append l (num % base ∷ []));
}

IsNumeral-one : (base num : ℕ) → num < base → IsNumeral base num (num ∷ [])
unfolding of_digits
IsNumeral-one base num h = record {
  value = omega arith;
  digits = (h, tt);
  front = λ d k e p. grind arith;
  some_digit = omega arith;
}

map-append : (f : ℕ → ℕ) (l k : List ℕ) → map f (l ++ k) ≡ map f l ++ map f k
map-append f [] k = refl
map-append f (x ∷ l) k = ap (λ m. f x ∷ m) (map-append f l k)

-- One more digit behind what is printed.
print-snoc :
    (pad l : List ℕ) (d : ℕ)
    → (pad ++ map digit_char l) ++ (digit_char d ∷ []) ≡ pad ++ map digit_char (l ++ (d ∷ []))
print-snoc pad l d =
    append_assoc pad (map digit_char l) (digit_char d ∷ [])
    ∙ ap (λ m. pad ++ m) (sym (map-append digit_char l (d ∷ [])))

printnum-small :
    (fuel num base width padc : ℕ)
    → leb base num ≡ false
    → printnum (suc fuel) num base width padc
      ≡ some (pads width padc ++ (digit_char (remainder num base) ∷ []))
unfolding printnum
printnum-small fuel num base width padc e = rw (printnum, e) refl

printnum-large :
    (fuel num base width padc : ℕ) (front : List ℕ)
    → leb base num ≡ true
    → printnum fuel (quotient num base) base (width - 1) padc ≡ some front
    → printnum (suc fuel) num base width padc
      ≡ some (front ++ (digit_char (remainder num base) ∷ []))
unfolding printnum
printnum-large fuel num base width padc front e h = rw (printnum, e, h) refl

fuel-pos : (num fuel : ℕ) → 8 ≤ num → num < power_of_8 (suc fuel) → 0 < fuel
fuel-pos num zero h k = absurd (omega arith)
fuel-pos num (suc fuel) h k = omega arith

-- `printnum` with fuel for the digits prints the digits of the number in the base, with no zero in
-- front but that of the number 0, behind as many pads as the width leaves room for.
pub printnum-IsNumeral :
    (fuel num base width padc : ℕ)
    → IsBase base
    → num < 2 ^ 32
    → num < power_of_8 fuel
    → 0 < fuel
    → (l : List ℕ) × (printnum fuel num base width padc
        ≡ some (fill (width - length l) padc ++ map digit_char l))
      × IsNumeral base num l
printnum-IsNumeral zero num base width padc b h k p = absurd (omega arith)
printnum-IsNumeral (suc fuel) num base width padc b h k p = elim (Bool-cases (leb base num)) [
  | inr e ↦
      let small : num < base = ground arith in
      (
        num ∷ [],
        printnum-small fuel num base width padc e
            ∙ rw (pads-fill width padc)
                (rw (remainder-mod num base b h) (rw (mod_small base num b small) refl)),
        IsNumeral-one base num small,
      )
  | inl e ↦
      let large : base ≤ num = ground arith in
      let (l, run, i) =
        printnum-IsNumeral fuel (num / base) base (width - 1) padc b
          (omega (arith, div_add_mod base num b, base-least base num b))
          (div-lt base num b (power_of_8 fuel) k)
          (fuel-pos num fuel (omega (arith, base-least base num b)) k) in
      (
        l ++ (num % base ∷ []),
        printnum-large fuel num base width padc
              (fill (width - 1 - length l) padc ++ map digit_char l) e
              (rw (quotient-div num base b h) run)
            ∙ rw (remainder-mod num base b h) (
                rw (widths l (num % base))
                  (ap some (print-snoc (fill (width - 1 - length l) padc) l (num % base)))),
        IsNumeral-snoc base num l b large i,
      )
]
  where
    widths : (l : List ℕ) (d : ℕ) → width - length (l ++ (d ∷ [])) ≡ width - 1 - length l
    widths l d = omega (arith, length-append l (d ∷ []))
