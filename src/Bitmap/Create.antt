-- ===== src/Bitmap/Create.antt =====
-- `bitmap_create`: which indices of a new bitmap are free.
use mips.Base.{
  ℕ, zero, suc, ◌+◌, ◌-◌, ◌*◌, ◌/◌, ◌%◌, ◌^◌, ◌<◌, ◌≤◌, ◌==◌, ◌≡◌, refl, true, false, some, ltb,
  leb, if◌then◌else◌, ◌&&◌, not, arith, Bool-cases, inl, inr, ◌⊎◌, ◌∙◌,
}
use mips.Bitmap.{word_bits, Bitmap, put_bit, words_for, clear_from, bitmap_create}
use mips.Bitmap.Alloc.{is_free}

sizes-clear_from :
    (left ix overbits : ℕ) (b : Bitmap)
    → ((clear_from left ix overbits b).nbits ≡ b.nbits)
      × ((clear_from left ix overbits b).nwords ≡ b.nwords)
unfolding clear_from
sizes-clear_from zero ix overbits b = (refl, refl)
sizes-clear_from (suc left) ix overbits b =
    sizes-clear_from left ix (overbits + 1) (put_bit ix overbits (not (b.map ix overbits)) b)

map-clear_from :
    (left ix overbits : ℕ) (b : Bitmap) (i o : ℕ)
    → (clear_from left ix overbits b).map i o ≡ (
        if i == ix && leb overbits o && ltb o (overbits + left) then not (b.map i o) else b.map i o)
unfolding clear_from
map-clear_from zero ix overbits b i o = ground arith
map-clear_from (suc left) ix overbits b i o =
    map-clear_from left ix (overbits + 1) (put_bit ix overbits (not (b.map ix overbits)) b) i o
    ∙ step (Bool-cases (i == ix && o == overbits))
  where
    step :
        ((i == ix && o == overbits) ≡ true) ⊎ ((i == ix && o == overbits) ≡ false)
        → (if i == ix && leb (overbits + 1) o && ltb o (overbits + 1 + left)
            then not (if i == ix && o == overbits then not (b.map ix overbits) else b.map i o)
            else if i == ix && o == overbits
            then not (b.map ix overbits)
            else b.map i o)
          ≡ (if i == ix && leb overbits o && ltb o (overbits + suc left)
              then not (b.map i o)
              else b.map i o)
    step (inl e) =
        let p : ix ≡ i = ground arith in
        let q : overbits ≡ o = ground arith in
        let m : b.map ix overbits ≡ b.map i o = λ j. b.map (p j) (q j) in ground (arith, m)
    step (inr e) = ground arith

-- `bitmap_create` of a size from 1 up to 2^32 - 33, with memory, passes its assertions and returns
-- a bitmap whose words have room for the size, and whose free indices are those below the size.
pub bitmap_create-is_free :
    (nbits : ℕ)
    → 0 < nbits
    → nbits + word_bits < 2 ^ 32
    → (b : Bitmap) × (bitmap_create true true nbits ≡ some (some b))
      × (b.nbits ≡ nbits)
      × (nbits ≤ b.nwords * word_bits)
      × ((i : ℕ) → i < b.nwords * word_bits → is_free b i ≡ ltb i nbits)
unfolding bitmap_create
bitmap_create-is_free nbits h k =
    let nwords = words_for nbits in
    let b : Bitmap = record { nbits = nbits; nwords = nwords; map = λ i o. true } in
    let ix = nwords - 1 in
    let overbits = nbits - ix * word_bits in
    let size : not (nbits == 0) && ltb nbits ((nbits + word_bits) % 2 ^ 32) ≡ true = ground arith in
    elim (Bool-cases (nbits == nwords * word_bits)) [
      | inl e ↦ (b, rw (size, e) refl, refl, omega arith, λ i x. ground arith)
      | inr e ↦
          let last : (nbits / word_bits == ix) ≡ true = ground arith in
          let over : ltb 0 overbits && ltb overbits word_bits ≡ true = ground arith in
          let c : Bitmap = clear_from (word_bits - overbits) ix overbits b in
          let (p, q) = sizes-clear_from (word_bits - overbits) ix overbits b in
          (
            c,
            rw (size, e) (rw (last, over) refl),
            p,
            rw q (omega arith),
            λ i x. ground (
              arith,
              map-clear_from (word_bits - overbits) ix overbits b (i / word_bits) (i % word_bits),
            ),
          )
    ]
