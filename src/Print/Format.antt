-- ===== src/Print/Format.antt =====
-- `vprintfmt` of kern/libs/printfmt.c: a format and its arguments become the list of characters
-- that `putch` is given. A format and a text are the characters before the zero that ends them; an
-- argument that is missing or of another kind is `none`. Widths and precisions are integers
-- without a bound.
pub mod Loop
pub mod Sequence
pub mod Decimal
use mips.Base.{
  ℕ, zero, suc, ◌+◌, ◌-◌, ◌*◌, ◌%◌, ◌^◌, ◌==◌, Bool, true, false, Option, none, some, List, [], ◌∷◌,
  ◌++◌, map, take, length, get_elem?, ltb, leb, if◌then◌else◌, ◌&&◌, ◌||◌, not, ◌>>=◌, ◌>>◌, assert,
}
use mips.Base.Int.{ℤ, pos, negsuc}
use mips.Print.{printnum}
use mips.Print.Errors.{error_strings}

-- An argument: a word of 32 bits, one of 64, or a text; the text `none` is a null pointer.
pub data Arg : Type 0 where
  int_arg : ℕ → Arg
  long_arg : ℕ → Arg
  text_arg : Option (List ℕ) → Arg

-- `va_arg` at a type of each kind.
pub va_int : List Arg → Option (ℕ × List Arg)
va_int (int_arg n ∷ ap) = some (n, ap)
va_int _ = none

pub va_long : List Arg → Option (ℕ × List Arg)
va_long (long_arg n ∷ ap) = some (n, ap)
va_long _ = none

pub va_text : List Arg → Option (Option (List ℕ) × List Arg)
va_text (text_arg t ∷ ap) = some (t, ap)
va_text _ = none

-- `getuint`; a `long` has 32 bits.
pub getuint : List Arg → (lflag : ℕ) → Option (ℕ × List Arg)
unfolding va_int va_long
getuint ap lflag = if leb 2 lflag then va_long ap else va_int ap

-- A word of 32 bits, its sign extended to 64.
abbrev pub sign_extend : ℕ → ℕ
sign_extend n = if ltb n (2 ^ 31) then n else n + 2 ^ 64 - 2 ^ 32

-- `getint`, in 64 bits.
pub getint : List Arg → (lflag : ℕ) → Option (ℕ × List Arg)
unfolding va_int va_long
getint ap lflag =
    if leb 2 lflag then va_long ap else (do (n, rest) ← va_int ap; some (sign_extend n, rest))

-- What the flags have set; `reading` is the number of a width field that is being read.
pub record Conv : Type 0 where
  pub padc : ℕ
  pub width : ℤ
  pub precision : ℤ
  pub lflag : ℕ
  pub altflag : Bool
  pub reading : Option ℕ

abbrev pub plain : Conv
plain = record {
  padc = 32;
  width = negsuc 0;
  precision = negsuc 0;
  lflag = 0;
  altflag = false;
  reading = none;
}

-- How far an integer is above 0: what a loop down to 0 runs.
abbrev pub above : ℤ → ℕ
above (pos n) = n
above (negsuc n) = 0

abbrev pub is_negative : ℤ → Bool
is_negative (pos n) = false
is_negative (negsuc n) = true

-- `process_precision`
abbrev pub process_precision : Conv → Conv
process_precision c =
    if is_negative c.width then record c { width = c.precision; precision = negsuc 0 } else c

pub repeat : ℕ → ℕ → List ℕ
repeat zero c = []
repeat (suc n) c = c ∷ repeat n c

-- The characters of a text that its precision leaves.
abbrev pub shown : ℤ → List ℕ → List ℕ
shown (negsuc n) p = p
shown (pos n) p = take n p

-- `case 's'`: the pads in front take what the text leaves of the width, and then none are behind.
pub print_text : Conv → List ℕ → List ℕ
unfolding repeat
print_text c p =
    let text = shown c.precision p in
    let in_front = ltb 0 (above c.width) && not (c.padc == 45) in
    let left = above c.width - length text in
    (if in_front then repeat left c.padc else [])
    ++ (map (λ ch. if c.altflag && (ltb ch 32 || ltb 126 ch) then 63 else ch) text
        ++ (if in_front then [] else repeat left 32))

-- `number`: eleven digits are enough for every base.
pub print_number : Conv → (num base : ℕ) → Option (List ℕ)
print_number c num base = printnum 11 (num % 2 ^ 32) base (above c.width) c.padc

-- `case 'd'`
pub print_decimal : Conv → List Arg → Option (List ℕ × List Arg)
unfolding getint print_number
print_decimal c ap = do
  (num, rest) ← getint ap c.lflag
  let negative = leb (2 ^ 63) num
  out ← print_number c (if negative then 2 ^ 64 - num else num) 10
  some (if negative then 45 ∷ out else out, rest)

-- `case 'x'` and `case 'p'`
pub print_hex : Conv → List Arg → Option (List ℕ × List Arg)
unfolding getuint print_number
print_hex c ap = do (num, rest) ← getuint ap c.lflag; out ← print_number c num 16; some (out, rest)

pub print_pointer : Conv → List Arg → Option (List ℕ × List Arg)
unfolding va_int print_number
print_pointer c ap = do
  (num, rest) ← va_int ap
  out ← print_number c num 16
  some (48 ∷ 120 ∷ out, rest)

-- `case 'e'`: the text of the error, or "error " and its number, printed by `printfmt`. The
-- least integer has no negative.
pub print_error : List Arg → Option (List ℕ × List Arg)
unfolding va_int print_number
print_error ap = do
  (n, rest) ← va_int ap
  assert (not (n == 2 ^ 31))
  let e = if ltb n (2 ^ 31) then n else 2 ^ 32 - n
  elim (get_elem? error_strings e) [
    | some (some p) ↦ some (p, rest)
    | _ ↦ (do out ← print_number plain e 10; some (101 ∷ 114 ∷ 114 ∷ 111 ∷ 114 ∷ 32 ∷ out, rest))
  ]

-- What a character of an escape sequence does: go on with the sequence, end it with what is
-- printed, or show that the sequence is none.
pub data Step : Type 0 where
  again : Conv → List Arg → Step
  prints : List ℕ → List Arg → Step
  unrecognized : Step
  undefined : Step

abbrev pub print_step : Option (List ℕ × List Arg) → Step
print_step none = undefined
print_step (some (out, ap)) = prints out ap

-- The conversions: `case 'c'` and after.
pub convert : Conv → ℕ → List Arg → Step
unfolding va_int va_text print_error print_text print_decimal print_hex print_pointer
convert c ch ap =
    if ch == 99
    then print_step (do (n, rest) ← va_int ap; some (n ∷ [], rest))
    else if ch == 101
    then print_step (print_error ap)
    else if ch == 115
    then print_step (do
      (t, rest) ← va_text ap
      some (
        print_text c (elim t [ none ↦ 40 ∷ 110 ∷ 117 ∷ 108 ∷ 108 ∷ 41 ∷ [] | some p ↦ p ]),
        rest,
      ))
    else if ch == 100
    then print_step (print_decimal c ap)
    else if ch == 112
    then print_step (print_pointer c ap)
    else if ch == 120
    then print_step (print_hex c ap)
    else if ch == 37
    then prints (37 ∷ []) ap
    else unrecognized

-- The `switch`, from its flags on.
pub switch : Conv → ℕ → List Arg → Step
unfolding convert va_int
switch c ch ap =
    if ch == 45
    then again (record c { padc = 45 }) ap
    else if ch == 48
    then again (record c { padc = 48 }) ap
    else if leb 49 ch && leb ch 57
    then again (record c { reading = some (ch - 48) }) ap
    else if ch == 42
    then elim (va_int ap) [
      | none ↦ undefined
      | some (n, rest) ↦
          again
            (process_precision
              (record c { precision = if ltb n (2 ^ 31) then pos n else negsuc (2 ^ 32 - n - 1) }))
            rest
    ]
    else if ch == 46
    then again (if is_negative c.width then record c { width = pos 0 } else c) ap
    else if ch == 35
    then again (record c { altflag = true }) ap
    else if ch == 108
    then again (record c { lflag = c.lflag + 1 }) ap
    else convert c ch ap

-- The next character: a digit goes on with the number that is being read, another ends it.
pub escape_char : Conv → ℕ → List Arg → Step
unfolding switch
escape_char c ch ap = elim c.reading [
  | none ↦ switch c ch ap
  | some n ↦
      if leb 48 ch && leb ch 57
      then again (record c { reading = some (n * 10 + ch - 48) }) ap
      else switch (process_precision (record c { precision = pos n; reading = none })) ch ap
]

-- What follows a step: the rest of the sequence by `go`, or the format behind the sequence, which is
-- `start` when the sequence is none and only its `%` is printed.
abbrev pub follow :
    (start fmt : List ℕ)
    → List Arg
    → (Conv → List Arg → Option (List ℕ × List ℕ × List Arg))
    → Step
    → Option (List ℕ × List ℕ × List Arg)
follow start fmt ap go (again c1 ap1) = go c1 ap1
follow start fmt ap go (prints out ap1) = some (out, fmt, ap1)
follow start fmt ap go unrecognized = some (37 ∷ [], start, ap)
follow start fmt ap go undefined = none

-- An escape sequence, whose first character is at `start`: what it prints, and where the format and
-- the arguments go on.
pub escape : (start : List ℕ) → Conv → List ℕ → List Arg → Option (List ℕ × List ℕ × List Arg)
unfolding escape_char
escape start c [] ap = some (37 ∷ [], start, ap)
escape start c (ch ∷ fmt) ap =
    follow start fmt ap (λ c1 ap1. escape start c1 fmt ap1) (escape_char c ch ap)

-- The loop of `vprintfmt`, on fuel.
pub format : (fuel : ℕ) (fmt : List ℕ) → List Arg → Option (List ℕ)
unfolding escape
format zero fmt ap = none
format (suc fuel) [] ap = some []
format (suc fuel) (ch ∷ fmt) ap = elim (ch == 37) [
  | false ↦ (do rest ← format fuel fmt ap; some (ch ∷ rest))
  | true ↦ (do
    (out, fmt1, ap1) ← escape fmt plain fmt ap
    rest ← format fuel fmt1 ap1
    some (out ++ rest))
]

-- Each round takes a character of the format at least.
unfoldable pub vprintfmt : List ℕ → List Arg → Option (List ℕ)
unfolding format
vprintfmt fmt ap = format (suc (length fmt)) fmt ap
