-- ===== src/Str/Text.antt =====
-- Strings in memory: what the routines that stop at a NUL do to the lists they stand for.
use mips.Base.{
  ℕ, zero, suc, ◌+◌, ◌-◌, ◌<◌, ◌≤◌, ◌==◌, ◌≡◌, ◌≢◌, Option, none, some, List, [], ◌∷◌, length, min,
  if◌then◌else◌, arith, ◌⊎◌,
}
use mips.Str.{
  Memory, write, strlen, strlen_loop, strnlen, strnlen_loop, strcpy, strncpy, strchr, strfind,
}
use mips.Str.Move.{in_block}

-- From `p` on memory holds the characters of `l`, none of them NUL, and then a NUL.
abbrev pub IsString : Memory → ℕ → List ℕ → Type 0
IsString m p [] = m p ≡ 0
IsString m p (c ∷ l) = (m p ≡ c) × (c ≢ 0) × IsString m (p + 1) l

-- The character at an index, and NUL behind the end.
unfoldable pub char_or_nul : List ℕ → ℕ → ℕ
char_or_nul [] i = 0
char_or_nul (c ∷ l) i = if i == 0 then c else char_or_nul l (i - 1)

strlen_loop-length :
    (fuel : ℕ) (m : Memory) (s cnt : ℕ) (l : List ℕ)
    → IsString m s l
    → length l < fuel
    → strlen_loop fuel m s cnt ≡ some (cnt + length l)
unfolding strlen_loop
strlen_loop-length zero m s cnt l h f = absurd (omega arith)
strlen_loop-length (suc fuel) m s cnt [] h f = ground arith
strlen_loop-length (suc fuel) m s cnt (c ∷ l) h f =
    ground (arith, strlen_loop-length fuel m (s + 1) (cnt + 1) l h.2)

-- With fuel for the string and its NUL `strlen` gives the string's length.
pub strlen-length :
    (fuel : ℕ) (m : Memory) (s : ℕ) (l : List ℕ)
    → IsString m s l
    → length l < fuel
    → strlen fuel m s ≡ some (length l)
unfolding strlen
strlen-length fuel m s l h f = ground (arith, strlen_loop-length fuel m s 0 l h f)

strnlen_loop-min :
    (left : ℕ) (m : Memory) (s cnt : ℕ) (l : List ℕ)
    → IsString m s l
    → strnlen_loop left m s cnt ≡ cnt + min (length l) left
unfolding strnlen_loop
strnlen_loop-min zero m s cnt l h = omega arith
strnlen_loop-min (suc left) m s cnt [] h = ground arith
strnlen_loop-min (suc left) m s cnt (c ∷ l) h =
    ground (arith, strnlen_loop-min left m (s + 1) (cnt + 1) l h.2)

-- `strnlen` gives the string's length, cut off at `len`.
pub strnlen-min :
    (m : Memory) (s len : ℕ) (l : List ℕ) → IsString m s l → strnlen m s len ≡ min (length l) len
unfolding strnlen
strnlen-min m s len l h = ground (arith, strnlen_loop-min len m s 0 l h)

-- Memory that agrees on the string and its NUL holds the string.
IsString-same :
    (m m' : Memory) (p : ℕ) (l : List ℕ)
    → ((a : ℕ) → p ≤ a → a ≤ p + length l → m' a ≡ m a)
    → IsString m p l
    → IsString m' p l
IsString-same m m' p [] e h = ground (arith, e p)
IsString-same m m' p (c ∷ l) e h = (
  ground (arith, e p),
  h.1,
  IsString-same m m' (p + 1) l (λ a k n. e a (omega arith) (omega arith)) h.2,
)

-- Two blocks of `n` bytes share none.
abbrev pub IsApart : ℕ → ℕ → ℕ → Type 0
IsApart p q n = (p + n ≤ q) ⊎ (q + n ≤ p)

-- The bytes that `strcpy` leaves.
abbrev pub copied : Memory → ℕ → List ℕ → Memory
copied m dst l a = if in_block a dst (length l + 1) then char_or_nul l (a - dst) else m a

-- What `strcpy` leaves: the copy, and every other byte as before.
pub record IsCopied (m : Memory) (dst : ℕ) (l : List ℕ) (m' : Memory) : Type 0 where
  pub copy : IsString m' dst l
  pub bytes : (a : ℕ) → m' a ≡ copied m dst l a

-- `strcpy` of a string to a place apart from it, with fuel for its bytes, returns; the string
-- stands at the destination, with its NUL, and no other byte has changed.
pub strcpy-IsCopied :
    (fuel : ℕ) (m : Memory) (dst src : ℕ) (l : List ℕ)
    → IsString m src l
    → IsApart dst src (length l + 1)
    → length l < fuel
    → (m' : Memory) × (strcpy fuel m dst src ≡ some m') × IsCopied m dst l m'
unfolding strcpy char_or_nul
strcpy-IsCopied zero m dst src l h n f = absurd (omega arith)
strcpy-IsCopied (suc fuel) m dst src [] h n f =
    (write m dst (m src), ground arith, record { copy = ground arith; bytes = λ a. ground arith })
strcpy-IsCopied (suc fuel) m dst src (c ∷ l) h n f =
    let kept = IsString-same m (write m dst (m src)) (src + 1) l (λ a p q. ground arith) h.2 in
    let (m', run, e) =
      strcpy-IsCopied fuel (write m dst (m src)) (dst + 1) (src + 1) l kept (ground arith)
        (omega arith) in
    (
      m',
      ground (arith, run),
      record {
        copy = (ground (arith, e.bytes dst), h.1, e.copy);
        bytes = λ a. ground (arith, e.bytes a);
      },
    )

-- The block that `strncpy` writes, and the string with its NUL, do not meet.
abbrev pub IsClear : ℕ → ℕ → ℕ → ℕ → Type 0
IsClear dst len src n = (dst + len ≤ src) ⊎ (src + n + 1 ≤ dst)

-- `strncpy` to a place apart from the string fills exactly `len` bytes: the string's characters as
-- far as they go, then NULs.
pub strncpy-block :
    (len : ℕ) (m : Memory) (dst src : ℕ) (l : List ℕ)
    → IsString m src l
    → IsClear dst len src (length l)
    → (a : ℕ)
    → strncpy m dst src len a ≡ (if in_block a dst len then char_or_nul l (a - dst) else m a)
unfolding strncpy char_or_nul
strncpy-block zero m dst src l h n a = ground arith
strncpy-block (suc len) m dst src [] h n a =
    let kept = IsString-same m (write m dst (m src)) src [] (λ a p q. ground arith) h in
    ground (arith, strncpy-block len (write m dst (m src)) (dst + 1) src [] kept (ground arith) a)
strncpy-block (suc len) m dst src (c ∷ l) h n a =
    let kept = IsString-same m (write m dst (m src)) (src + 1) l (λ a p q. ground arith) h.2 in
    ground
      (arith, strncpy-block len (write m dst (m src)) (dst + 1) (src + 1) l kept (ground arith) a)

-- The pointer to the first `c`, counted from `s`.
unfoldable pub find_char : ℕ → ℕ → List ℕ → Option ℕ
find_char s c [] = none
find_char s c (d ∷ l) = if d == c then some s else find_char (s + 1) c l

abbrev pub found_or_end : ℕ → ℕ → Option ℕ → ℕ
found_or_end s n none = s + n
found_or_end s n (some p) = p

-- `strchr` gives the first occurrence of the character in the string, or NULL if there is none.
pub strchr-find_char :
    (fuel : ℕ) (m : Memory) (s c : ℕ) (l : List ℕ)
    → IsString m s l
    → length l < fuel
    → strchr fuel m s c ≡ some (find_char s c l)
unfolding strchr find_char
strchr-find_char zero m s c l h f = absurd (omega arith)
strchr-find_char (suc fuel) m s c [] h f = ground arith
strchr-find_char (suc fuel) m s c (d ∷ l) h f =
    ground (arith, strchr-find_char fuel m (s + 1) c l h.2)

-- `strfind` gives the same occurrence, or the place of the NUL.
pub strfind-find_char :
    (fuel : ℕ) (m : Memory) (s c : ℕ) (l : List ℕ)
    → IsString m s l
    → length l < fuel
    → strfind fuel m s c ≡ some (found_or_end s (length l) (find_char s c l))
unfolding strfind find_char
strfind-find_char zero m s c l h f = absurd (omega arith)
strfind-find_char (suc fuel) m s c [] h f = ground arith
strfind-find_char (suc fuel) m s c (d ∷ l) h f =
    ground (arith, strfind-find_char fuel m (s + 1) c l h.2)
