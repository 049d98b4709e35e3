-- ===== src/Str/Tests.antt =====
-- "ab" at 10 and "ad" at 20, and the theorems at them.
use mips.Base.{ℕ, ◌==◌, ◌≡◌, refl, List, [], ◌∷◌, if◌then◌else◌, arith}
use mips.Base.Int.{negsuc}
use mips.Str.{Memory, memmove}
use mips.Str.Move.{memmove-block}
use mips.Str.Text.{IsString}
use mips.Str.Compare.{compare_strings}

abbrev memory : Memory
memory a =
    if a == 10
    then 97
    else if a == 11
    then 98
    else if a == 20
    then 97
    else if a == 21
    then 100
    else 0

abbrev ab : List ℕ
ab = 97 ∷ 98 ∷ []

abbrev ad : List ℕ
ad = 97 ∷ 100 ∷ []

ab-IsString : IsString memory 10 ab
ab-IsString = omega arith

ad-IsString : IsString memory 20 ad
ad-IsString = omega arith

memmove-block_example : memmove memory 11 10 2 12 ≡ 98
memmove-block_example = memmove-block memory 11 10 2 12

b_before_d : compare_strings ab ad ≡ negsuc 1
unfolding compare_strings
b_before_d = refl
