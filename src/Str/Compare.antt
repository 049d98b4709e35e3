-- ===== src/Str/Compare.antt =====
-- `strcmp`, `strncmp` and `memcmp`: the order of the first difference.
use mips.Base.{
  ℕ, zero, suc, ◌+◌, ◌<◌, ◌==◌, ◌≡◌, ◌≢◌, refl, some, List, [], ◌∷◌, length, if◌then◌else◌, arith,
  ◌↔◌, ap, take,
}
use mips.Base.Int.{ℤ, pos, sub_ℕ}
use mips.Str.{Memory, strcmp, strncmp, memcmp}
use mips.Str.Text.{IsString}

-- The difference of the first characters that differ; a string that ends counts as a NUL.
unfoldable pub compare_strings : List ℕ → List ℕ → ℤ
compare_strings [] [] = pos 0
compare_strings [] (d ∷ l) = sub_ℕ 0 d
compare_strings (c ∷ l) [] = sub_ℕ c 0
compare_strings (c ∷ l) (d ∷ k) = if c == d then compare_strings l k else sub_ℕ c d

-- `strcmp` of two strings gives the difference of their first different characters.
pub strcmp-compare_strings :
    (fuel : ℕ) (m : Memory) (s1 s2 : ℕ) (l k : List ℕ)
    → IsString m s1 l
    → IsString m s2 k
    → length l < fuel
    → strcmp fuel m s1 s2 ≡ some (compare_strings l k)
unfolding strcmp compare_strings
strcmp-compare_strings zero m s1 s2 l k h g f = absurd (omega arith)
strcmp-compare_strings (suc fuel) m s1 s2 [] [] h g f = ground arith
strcmp-compare_strings (suc fuel) m s1 s2 [] (d ∷ k) h g f = ground arith
strcmp-compare_strings (suc fuel) m s1 s2 (c ∷ l) [] h g f = ground arith
strcmp-compare_strings (suc fuel) m s1 s2 (c ∷ l) (d ∷ k) h g f =
    ground (arith, strcmp-compare_strings fuel m (s1 + 1) (s2 + 1) l k h.2 g.2)

abbrev NoNul : List ℕ → Type 0
NoNul [] = Unit
NoNul (c ∷ l) = (c ≢ 0) × NoNul l

IsString-NoNul : (m : Memory) (p : ℕ) (l : List ℕ) → IsString m p l → NoNul l
IsString-NoNul m p [] h = tt
IsString-NoNul m p (c ∷ l) h = (h.1, IsString-NoNul m (p + 1) l h.2)

eq-compare_strings : (l k : List ℕ) → NoNul l → NoNul k → compare_strings l k ≡ pos 0 → l ≡ k
unfolding compare_strings
eq-compare_strings [] [] h g e = refl
eq-compare_strings [] (d ∷ k) h g e = absurd (ground arith)
eq-compare_strings (c ∷ l) [] h g e = absurd (ground arith)
eq-compare_strings (c ∷ l) (d ∷ k) h g e = ground (arith, eq-compare_strings l k h.1 g.1)

compare_strings_self : (l : List ℕ) → compare_strings l l ≡ pos 0
unfolding compare_strings
compare_strings_self [] = refl
compare_strings_self (c ∷ l) = ground (arith, compare_strings_self l)

-- `strcmp` returns 0 exactly if the two strings are equal.
pub strcmp-eq_zero :
    (fuel : ℕ) (m : Memory) (s1 s2 : ℕ) (l k : List ℕ)
    → IsString m s1 l
    → IsString m s2 k
    → length l < fuel
    → (strcmp fuel m s1 s2 ≡ some (pos 0)) ↔ (l ≡ k)
strcmp-eq_zero fuel m s1 s2 l k h g f =
    let run = strcmp-compare_strings fuel m s1 s2 l k h g f in
    (
      λ e.
          eq-compare_strings l k (IsString-NoNul m s1 l h) (IsString-NoNul m s2 k g)
            (ground (arith, run, e)),
      λ e. rw (run, ← e) (ap some (compare_strings_self l)),
    )

-- The two blocks of `n` bytes agree.
abbrev pub SameBytes : Memory → ℕ → ℕ → ℕ → Type 0
SameBytes m p q n = (i : ℕ) → i < n → m (p + i) ≡ m (q + i)

SameBytes-memcmp : (m : Memory) (v1 v2 n : ℕ) → memcmp m v1 v2 n ≡ pos 0 → SameBytes m v1 v2 n
unfolding memcmp
SameBytes-memcmp m v1 v2 zero e i h = absurd (omega arith)
SameBytes-memcmp m v1 v2 (suc n) e zero h = ground arith
SameBytes-memcmp m v1 v2 (suc n) e (suc i) h =
    ground (arith, SameBytes-memcmp m (v1 + 1) (v2 + 1) n (ground arith) i (omega arith))

memcmp_of_SameBytes : (m : Memory) (v1 v2 n : ℕ) → SameBytes m v1 v2 n → memcmp m v1 v2 n ≡ pos 0
unfolding memcmp
memcmp_of_SameBytes m v1 v2 zero e = refl
memcmp_of_SameBytes m v1 v2 (suc n) e =
    ground
      (arith, e 0, memcmp_of_SameBytes m (v1 + 1) (v2 + 1) n (λ i h. ground (arith, e (suc i))))

-- `memcmp` returns 0 exactly if the `n` bytes of the two blocks agree.
pub memcmp-eq_zero : (m : Memory) (v1 v2 n : ℕ) → (memcmp m v1 v2 n ≡ pos 0) ↔ SameBytes m v1 v2 n
memcmp-eq_zero m v1 v2 n = (SameBytes-memcmp m v1 v2 n, memcmp_of_SameBytes m v1 v2 n)

-- `strncmp` compares the first `n` characters as `strcmp` compares whole strings.
pub strncmp-compare_strings :
    (n : ℕ) (m : Memory) (s1 s2 : ℕ) (l k : List ℕ)
    → IsString m s1 l
    → IsString m s2 k
    → strncmp m s1 s2 n ≡ compare_strings (take n l) (take n k)
unfolding strncmp compare_strings
strncmp-compare_strings zero m s1 s2 l k h g = refl
strncmp-compare_strings (suc n) m s1 s2 [] [] h g = ground arith
strncmp-compare_strings (suc n) m s1 s2 [] (d ∷ k) h g = ground arith
strncmp-compare_strings (suc n) m s1 s2 (c ∷ l) [] h g = ground arith
strncmp-compare_strings (suc n) m s1 s2 (c ∷ l) (d ∷ k) h g =
    ground (arith, strncmp-compare_strings n m (s1 + 1) (s2 + 1) l k h.2 g.2)
