-- ===== src/Str/Move.antt =====
-- `memset`, `memcpy` and `memmove`, byte for byte.
use mips.Base.{
  ℕ, zero, suc, ◌+◌, ◌-◌, ◌≤◌, ◌≡◌, Bool, false, ltb, leb, if◌then◌else◌, ◌&&◌, arith, inl, inr,
  Bool-cases,
}
use mips.Str.{Memory, write, memset, copy_up, copy_down, memcpy, memmove}

-- The byte `a` is one of the `n` from `p` on.
abbrev pub in_block : ℕ → ℕ → ℕ → Bool
in_block a p n = leb p a && ltb a (p + n)

-- `memset` sets exactly the `n` bytes of the block.
pub memset-block :
    (m : Memory) (s c n a : ℕ) → memset m s c n a ≡ (if in_block a s n then c else m a)
unfolding memset
memset-block m s c zero a = ground arith
memset-block m s c (suc n) a = ground (arith, memset-block (write m s c) (s + 1) c n a)

copy_up-block :
    (m : Memory) (d s n a : ℕ)
    → (ltb s d && ltb d (s + n)) ≡ false
    → copy_up m d s n a ≡ (if in_block a d n then m (s + (a - d)) else m a)
unfolding copy_up
copy_up-block m d s zero a h = ground arith
copy_up-block m d s (suc n) a h =
    ground (arith, copy_up-block (write m d (m s)) (d + 1) (s + 1) n a)

-- The pointers stand behind the blocks.
copy_down-block :
    (m : Memory) (d s n a : ℕ)
    → n ≤ s
    → s ≤ d
    → copy_down m d s n a ≡ (if in_block a (d - n) n then m (s - n + (a - (d - n))) else m a)
unfolding copy_down
copy_down-block m d s zero a h k = ground arith
copy_down-block m d s (suc n) a h k =
    ground (arith, copy_down-block (write m (d - 1) (m (s - 1))) (d - 1) (s - 1) n a)

-- `memcpy` copies blocks that do not overlap: afterwards the destination holds the source's
-- bytes, and every other byte is as before.
pub memcpy-block :
    (m : Memory) (dst src n a : ℕ)
    → (ltb src dst && ltb dst (src + n)) ≡ false
    → memcpy m dst src n a ≡ (if in_block a dst n then m (src + (a - dst)) else m a)
unfolding memcpy
memcpy-block m dst src n a h = copy_up-block m dst src n a h

-- `memmove` copies any two blocks, however they overlap: afterwards the destination holds what
-- the source held before, and every other byte is as before.
pub memmove-block :
    (m : Memory) (dst src n a : ℕ)
    → memmove m dst src n a ≡ (if in_block a dst n then m (src + (a - dst)) else m a)
unfolding memmove
memmove-block m dst src n a = elim (Bool-cases (ltb src dst && ltb dst (src + n))) [
  | inl h ↦ rw h (ground (arith, copy_down-block m (dst + n) (src + n) n a))
  | inr h ↦ rw h (copy_up-block m dst src n a h)
]
