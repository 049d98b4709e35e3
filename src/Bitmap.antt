-- ===== src/Bitmap.antt =====
-- The bitmap of free blocks: kern/fs/sfs/bitmap.c. A word is taken as its 32 bits, a set bit is a
-- free block; `w ^= mask` and `w |= mask` are then changes of the bit of the mask.
pub mod Alloc
pub mod Create
mod Tests
use mips.Base.{
  ℕ, zero, suc, ◌+◌, ◌-◌, ◌*◌, ◌/◌, ◌%◌, ◌^◌, ◌==◌, Bool, true, false, Option, none, some, ltb,
  if◌then◌else◌, ◌&&◌, not, ◌>>=◌, ◌>>◌, assert,
}

abbrev pub Word : Type 0
Word = ℕ → Bool

-- WORD_BITS
abbrev pub word_bits : ℕ
word_bits = 32

pub record Bitmap : Type 0 where
  pub nbits : ℕ
  pub nwords : ℕ
  pub map : ℕ → Word

abbrev pub put_bit : ℕ → ℕ → Bool → Bitmap → Bitmap
put_bit ix offset v b = record b { map = λ i o. if i == ix && o == offset then v else b.map i o }

-- ROUNDUP_DIV_2N(nbits, WORD_BITS_SHIFT)
abbrev pub words_for : ℕ → ℕ
words_for nbits = ((nbits + 2 ^ 5 - 1) % 2 ^ 32) / 2 ^ 5

-- The loop that flips the bits from `overbits` on of the word `ix`.
clear_from : (left ix overbits : ℕ) → Bitmap → Bitmap
clear_from zero ix overbits b = b
clear_from (suc left) ix overbits b =
    clear_from left ix (overbits + 1) (put_bit ix overbits (not (b.map ix overbits)) b)

-- `bitmap_create`; the first two parameters are whether `kmalloc` gives memory, and the inner `none`
-- is NULL. `memset` sets every bit.
pub bitmap_create : (got_bitmap got_map : Bool) → ℕ → Option (Option Bitmap)
unfolding clear_from
bitmap_create got_bitmap got_map nbits = do
  assert (not (nbits == 0) && ltb nbits ((nbits + word_bits) % 2 ^ 32))
  let nwords = words_for nbits
  let b : Bitmap = record { nbits = nbits; nwords = nwords; map = λ i o. true }
  let ix = nwords - 1
  let overbits = nbits - ix * word_bits
  if not (got_bitmap && got_map)
      then some none
      else if nbits == nwords * word_bits
      then some (some b)
      else (do
        assert (nbits / word_bits == ix)
        assert (ltb 0 overbits && ltb overbits word_bits)
        some (some (clear_from (word_bits - overbits) ix overbits b)))

-- `w != 0`, on the `left` bits from `offset` on.
is_nonzero : (left offset : ℕ) → Word → Bool
is_nonzero zero offset w = false
is_nonzero (suc left) offset w = elim (w offset) [
  | true ↦ true
  | false ↦ is_nonzero left (offset + 1) w
]

find_bit : (left offset : ℕ) → Word → Option ℕ
find_bit zero offset w = none
find_bit (suc left) offset w = elim (w offset) [
  | true ↦ some offset
  | false ↦ find_bit left (offset + 1) w
]

-- The loop over the words; the outer `none` is the failure of `assert(0)`, the inner one the end.
find_free : (left ix : ℕ) → (ℕ → Word) → Option (Option (ℕ × ℕ))
unfolding is_nonzero find_bit
find_free zero ix map = some none
find_free (suc left) ix map = elim (is_nonzero word_bits 0 (map ix)) [
  | false ↦ find_free left (ix + 1) map
  | true ↦ elim (find_bit word_bits 0 (map ix)) [
    | none ↦ none
    | some offset ↦ some (some (ix, offset))
  ]
]

-- `bitmap_alloc`: the index, or nothing for -E_NO_MEM.
pub bitmap_alloc : Bitmap → Option (Option ℕ × Bitmap)
unfolding find_free
bitmap_alloc b = do
  found ← find_free b.nwords 0 b.map
  some (elim found [
    | none ↦ (none, b)
    | some place ↦ (
      some (place.0 * word_bits + place.1),
      put_bit place.0 place.1 (not (b.map place.0 place.1)) b,
    )
  ])

pub bitmap_test : ℕ → Bitmap → Option Bool
bitmap_test index b = do
  assert (ltb index b.nbits)
  some (b.map (index / word_bits) (index % word_bits))

pub bitmap_free : ℕ → Bitmap → Option Bitmap
bitmap_free index b = do
  assert (ltb index b.nbits)
  assert (not (b.map (index / word_bits) (index % word_bits)))
  some (put_bit (index / word_bits) (index % word_bits) true b)
