-- ===== src/Str.antt =====
-- The string and memory routines of kern/libs/string.c (the C bodies: __HAVE_ARCH_MEM_OPTS is
-- nowhere defined). Memory is a function from addresses to bytes; a pointer is an address. A loop
-- that stops at a NUL runs on fuel, and `none` is fuel run out; a counted loop recurs on its count.
pub mod Move
pub mod Text
pub mod Compare
mod Tests
use mips.Base.{
  ℕ, zero, suc, ◌+◌, ◌-◌, ◌==◌, Bool, true, false, Option, none, some, ltb, if◌then◌else◌, ◌&&◌,
  ◌||◌, not,
}
use mips.Base.Int.{ℤ, pos, sub_ℕ}

abbrev pub Memory : Type 0
Memory = ℕ → ℕ

-- `*p = c`
abbrev pub write : Memory → ℕ → ℕ → Memory
write m p c a = if a == p then c else m a

strlen_loop : ℕ → Memory → ℕ → ℕ → Option ℕ
strlen_loop zero m s cnt = none
strlen_loop (suc fuel) m s cnt = elim (m s == 0) [
  | true ↦ some cnt
  | false ↦ strlen_loop fuel m (s + 1) (cnt + 1)
]

pub strlen : ℕ → Memory → ℕ → Option ℕ
unfolding strlen_loop
strlen fuel m s = strlen_loop fuel m s 0

-- `left` is `len - cnt`.
strnlen_loop : (left : ℕ) → Memory → ℕ → ℕ → ℕ
strnlen_loop zero m s cnt = cnt
strnlen_loop (suc left) m s cnt = elim (m s == 0) [
  | true ↦ cnt
  | false ↦ strnlen_loop left m (s + 1) (cnt + 1)
]

pub strnlen : Memory → ℕ → ℕ → ℕ
unfolding strnlen_loop
strnlen m s len = strnlen_loop len m s 0

pub strcpy : ℕ → Memory → (dst src : ℕ) → Option Memory
strcpy zero m dst src = none
strcpy (suc fuel) m dst src =
    let m' = write m dst (m src) in
    elim (m src == 0) [ true ↦ some m' | false ↦ strcpy fuel m' (dst + 1) (src + 1) ]

pub strncpy : Memory → (dst src len : ℕ) → Memory
strncpy m dst src zero = m
strncpy m dst src (suc len) =
    strncpy (write m dst (m src)) (dst + 1) (if m src == 0 then src else src + 1) len

pub strcmp : ℕ → Memory → (s1 s2 : ℕ) → Option ℤ
strcmp zero m s1 s2 = none
strcmp (suc fuel) m s1 s2 = elim (not (m s1 == 0) && m s1 == m s2) [
  | true ↦ strcmp fuel m (s1 + 1) (s2 + 1)
  | false ↦ some (sub_ℕ (m s1) (m s2))
]

pub strncmp : Memory → (s1 s2 n : ℕ) → ℤ
strncmp m s1 s2 zero = pos 0
strncmp m s1 s2 (suc n) = elim (not (m s1 == 0) && m s1 == m s2) [
  | true ↦ strncmp m (s1 + 1) (s2 + 1) n
  | false ↦ sub_ℕ (m s1) (m s2)
]

-- The answer of `strchr` is a pointer or NULL; the outer `none` is fuel run out.
pub strchr : ℕ → Memory → (s c : ℕ) → Option (Option ℕ)
strchr zero m s c = none
strchr (suc fuel) m s c = elim (m s == 0) [
  | true ↦ some none
  | false ↦ elim (m s == c) [ true ↦ some (some s) | false ↦ strchr fuel m (s + 1) c ]
]

pub strfind : ℕ → Memory → (s c : ℕ) → Option ℕ
strfind zero m s c = none
strfind (suc fuel) m s c = elim (m s == 0) [
  | true ↦ some s
  | false ↦ elim (m s == c) [ true ↦ some s | false ↦ strfind fuel m (s + 1) c ]
]

pub memset : Memory → (s c n : ℕ) → Memory
memset m s c zero = m
memset m s c (suc n) = memset (write m s c) (s + 1) c n

-- `while (n -- > 0) *d ++ = *s ++`: the loop of `memcpy`, and the second one of `memmove`.
copy_up : Memory → (d s n : ℕ) → Memory
copy_up m d s zero = m
copy_up m d s (suc n) = copy_up (write m d (m s)) (d + 1) (s + 1) n

-- `while (n -- > 0) *-- d = *-- s`
copy_down : Memory → (d s n : ℕ) → Memory
copy_down m d s zero = m
copy_down m d s (suc n) = copy_down (write m (d - 1) (m (s - 1))) (d - 1) (s - 1) n

pub memcpy : Memory → (dst src n : ℕ) → Memory
unfolding copy_up
memcpy m dst src n = copy_up m dst src n

pub memmove : Memory → (dst src n : ℕ) → Memory
unfolding copy_up copy_down
memmove m dst src n =
    if ltb src dst && ltb dst (src + n)
    then copy_down m (dst + n) (src + n) n
    else copy_up m dst src n

pub memcmp : Memory → (v1 v2 n : ℕ) → ℤ
memcmp m v1 v2 zero = pos 0
memcmp m v1 v2 (suc n) = elim (m v1 == m v2) [
  | false ↦ sub_ℕ (m v1) (m v2)
  | true ↦ memcmp m (v1 + 1) (v2 + 1) n
]
