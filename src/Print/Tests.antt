-- ===== src/Print/Tests.antt =====
-- Formats that are printed, and the theorems at concrete inputs.
use mips.Base.{ℕ, ◌-◌, ◌≡◌, refl, none, ◌⊎◌, some, List, [], ◌∷◌, ◌++◌, arith, length, map, inr}
use mips.Base.Results.{ok}
use mips.Base.Int.{pos}
use mips.Print.{mulu10, divu10, printnum, digit_char}
use mips.Print.Number.{fill, IsNumeral, printnum-IsNumeral}
use mips.Print.Format.{int_arg, text_arg, plain, vprintfmt, print_decimal}
use mips.Print.Format.Loop.{IsPrinted, IsStuck, vprintfmt-IsPrinted}
use mips.Print.Format.Decimal.{sign, magnitude, print_decimal-IsNumeral}
use mips.Print.Buffer.{vsnprintf, overlay, vsnprintf-cells}

-- "%d" of -42 is "-42".
decimal_test : vprintfmt (37 ∷ 100 ∷ []) (int_arg 4294967254 ∷ []) ≡ some (45 ∷ 52 ∷ 50 ∷ [])
unfolding vprintfmt printnum mulu10 divu10
decimal_test = refl

-- "a%5xb" of 255 is "a   ffb".
hex_test :
    vprintfmt (97 ∷ 37 ∷ 53 ∷ 120 ∷ 98 ∷ []) (int_arg 255 ∷ [])
    ≡ some (97 ∷ 32 ∷ 32 ∷ 32 ∷ 102 ∷ 102 ∷ 98 ∷ [])
unfolding vprintfmt printnum mulu10 divu10
hex_test = refl

-- "%-5d" of 7 is "----7".
minus_test :
    vprintfmt (37 ∷ 45 ∷ 53 ∷ 100 ∷ []) (int_arg 7 ∷ []) ≡ some (45 ∷ 45 ∷ 45 ∷ 45 ∷ 55 ∷ [])
unfolding vprintfmt printnum mulu10 divu10
minus_test = refl

-- "%-5s|" of "ab" is "ab   |".
text_test :
    vprintfmt (37 ∷ 45 ∷ 53 ∷ 115 ∷ 124 ∷ []) (text_arg (some (97 ∷ 98 ∷ [])) ∷ [])
    ≡ some (97 ∷ 98 ∷ 32 ∷ 32 ∷ 32 ∷ 124 ∷ [])
unfolding vprintfmt printnum mulu10 divu10
text_test = refl

-- "%e" of 7 is "error 7".
error_test :
    vprintfmt (37 ∷ 101 ∷ []) (int_arg 7 ∷ []) ≡ some (101 ∷ 114 ∷ 114 ∷ 111 ∷ 114 ∷ 32 ∷ 55 ∷ [])
unfolding vprintfmt printnum mulu10 divu10
error_test = refl

c_test : vprintfmt (37 ∷ 99 ∷ []) (int_arg 256 ∷ []) ≡ some (256 ∷ [])
unfolding vprintfmt
c_test = refl

-- "%0q" prints itself.
unrecognized_test : vprintfmt (37 ∷ 48 ∷ 113 ∷ []) [] ≡ some (37 ∷ 48 ∷ 113 ∷ [])
unfolding vprintfmt printnum mulu10 divu10
unrecognized_test = refl

printnum-IsNumeral_example :
    (l : List ℕ) × (printnum 11 255 16 5 32 ≡ some (fill (5 - length l) 32 ++ map digit_char l))
    × IsNumeral 16 255 l
printnum-IsNumeral_example =
    printnum-IsNumeral 11 255 16 5 32 (inr (inr refl)) (omega arith) (omega arith) (omega arith)

print_decimal-IsNumeral_example :
    (l : List ℕ) × (print_decimal (record plain { width = pos 6 }) (int_arg 4294967254 ∷ [])
      ≡ some (sign 4294967254 ++ (fill (6 - length l) 32 ++ map digit_char l), []))
    × IsNumeral 10 (magnitude 4294967254) l
print_decimal-IsNumeral_example =
    print_decimal-IsNumeral (record plain { width = pos 6 }) 4294967254 [] (omega arith)
      (omega arith)

-- "%d!" of 7.
vprintfmt-IsPrinted_example :
    ((out : List ℕ) × (vprintfmt (37 ∷ 100 ∷ 33 ∷ []) (int_arg 7 ∷ []) ≡ some out)
      × IsPrinted (37 ∷ 100 ∷ 33 ∷ []) (int_arg 7 ∷ []) out)
    ⊎ ((vprintfmt (37 ∷ 100 ∷ 33 ∷ []) (int_arg 7 ∷ []) ≡ none)
        × IsStuck (37 ∷ 100 ∷ 33 ∷ []) (int_arg 7 ∷ []))
vprintfmt-IsPrinted_example = vprintfmt-IsPrinted (37 ∷ 100 ∷ 33 ∷ []) (int_arg 7 ∷ [])

-- "%c" of 256 leaves a zero in the buffer.
char_test :
    vsnprintf (some (9 ∷ 9 ∷ [])) 2 (37 ∷ 99 ∷ []) (int_arg 256 ∷ [])
    ≡ some (ok (overlay (0 ∷ 0 ∷ []) (9 ∷ 9 ∷ []), 1))
char_test =
    vsnprintf-cells (9 ∷ 9 ∷ []) (37 ∷ 99 ∷ []) 2 (int_arg 256 ∷ []) (256 ∷ []) (omega arith)
      (omega arith) c_test

vsnprintf-cells_example :
    vsnprintf (some (9 ∷ 9 ∷ 9 ∷ 9 ∷ [])) 3 (37 ∷ 100 ∷ []) (int_arg 4294967254 ∷ [])
    ≡ some (ok (overlay (45 ∷ 52 ∷ 0 ∷ []) (9 ∷ 9 ∷ 9 ∷ 9 ∷ []), 3))
vsnprintf-cells_example =
    vsnprintf-cells (9 ∷ 9 ∷ 9 ∷ 9 ∷ []) (37 ∷ 100 ∷ []) 3 (int_arg 4294967254 ∷ [])
      (45 ∷ 52 ∷ 50 ∷ []) (omega arith) (omega arith) decimal_test
