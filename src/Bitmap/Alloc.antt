-- ===== src/Bitmap/Alloc.antt =====
-- What a bitmap hands out and takes back, in terms of the indices that are free.
use mips.Base.{
  ℕ, zero, suc, ◌+◌, ◌*◌, ◌/◌, ◌%◌, ◌<◌, ◌≤◌, ◌==◌, ◌≡◌, refl, Bool, true, false, Option, none,
  some, ltb, if◌then◌else◌, ◌&&◌, not, arith, Bool-cases, inl, inr, ℕ-cases, sym, subst,
}
use mips.Bitmap.{
  Word, word_bits, Bitmap, put_bit, is_nonzero, find_bit, find_free, bitmap_alloc, bitmap_free,
}

abbrev pub is_free : Bitmap → ℕ → Bool
is_free b i = b.map (i / word_bits) (i % word_bits)

-- The `left` bits from `offset` on: none is set, or `find_bit` finds the first one.
data IsSearched (left offset : ℕ) (w : Word) : Type 0 where
  empty :
      is_nonzero left offset w ≡ false
      → ((o : ℕ) → offset ≤ o → o < offset + left → w o ≡ false)
      → IsSearched left offset w
  at :
      (n : ℕ)
      → is_nonzero left offset w ≡ true
      → find_bit left offset w ≡ some n
      → offset ≤ n
      → n < offset + left
      → w n ≡ true
      → ((o : ℕ) → offset ≤ o → o < n → w o ≡ false)
      → IsSearched left offset w

search : (left offset : ℕ) (w : Word) → IsSearched left offset w
unfolding is_nonzero find_bit
search zero offset w = empty refl (λ o h k. absurd (omega arith))
search (suc left) offset w = elim (Bool-cases (w offset)) [
  | inl e ↦
      at offset (rw (e, is_nonzero) refl) (rw (e, find_bit) refl) (omega arith) (omega arith) e
        (λ o h k. absurd (omega arith))
  | inr e ↦ elim (search left (offset + 1) w) [
    | empty z f ↦ empty (rw (e, is_nonzero) z) (λ o h k. elim (ℕ-cases offset o) [
      | inl same ↦ subst (λ n. w n ≡ false) same e
      | inr d ↦ f o (omega arith) (omega arith)
    ])
    | at n z g h k s f ↦
        at n (rw (e, is_nonzero) z) (rw (e, find_bit) g) (omega arith) (omega arith) s (λ o x y.
          elim (ℕ-cases offset o) [
            | inl same ↦ subst (λ n. w n ≡ false) same e
            | inr d ↦ f o (omega arith) y
          ])
  ]
]

-- The same of the words: all bits of the `left` words from `ix` on are clear, or the first set bit
-- is found.
data IsWalked (left ix : ℕ) (map : ℕ → Word) : Type 0 where
  full :
      find_free left ix map ≡ some none
      → ((i o : ℕ) → ix ≤ i → i < ix + left → o < word_bits → map i o ≡ false)
      → IsWalked left ix map
  found :
      (n o : ℕ)
      → find_free left ix map ≡ some (some (n, o))
      → ix ≤ n
      → n < ix + left
      → o < word_bits
      → map n o ≡ true
      → ((p : ℕ) → p < o → map n p ≡ false)
      → ((i p : ℕ) → ix ≤ i → i < n → p < word_bits → map i p ≡ false)
      → IsWalked left ix map

walk : (left ix : ℕ) (map : ℕ → Word) → IsWalked left ix map
unfolding find_free
walk zero ix map = full refl (λ i o h k. absurd (omega arith))
walk (suc left) ix map = elim (search word_bits 0 (map ix)) [
  | at o z g h k s f ↦
      found ix o (rw (z, find_free) (rw g refl)) (omega arith) (omega arith) k s
        (λ p x. f p (omega arith) x) (λ i p x y. absurd (omega arith))
  | empty z f ↦ elim (walk left (ix + 1) map) [
    | full run none_left ↦ full (rw (z, find_free) run) (λ i o x y c. elim (ℕ-cases ix i) [
      | inl same ↦ subst (λ n. map n o ≡ false) same (f o (omega arith) (omega arith))
      | inr d ↦ none_left i o (omega arith) (omega arith) c
    ])
    | found n o run h k c s below before ↦
        found n o (rw (z, find_free) run) (omega arith) (omega arith) c s below (λ i p x y b.
          elim (ℕ-cases ix i) [
            | inl same ↦ subst (λ n. map n p ≡ false) same (f p (omega arith) (omega arith))
            | inr d ↦ before i p (omega arith) y b
          ])
  ]
]

-- What `bitmap_alloc` does: it fails if no index is free, or it takes the lowest free one.
pub data IsAllocated (b : Bitmap) (r : Option ℕ × Bitmap) : Type 0 where
  exhausted :
      r ≡ (none, b) → ((i : ℕ) → i < b.nwords * word_bits → is_free b i ≡ false) → IsAllocated b r
  taken :
      (n : ℕ)
      → r.0 ≡ some n
      → n < b.nwords * word_bits
      → is_free b n ≡ true
      → ((i : ℕ) → i < n → is_free b i ≡ false)
      → ((i : ℕ) → is_free r.1 i ≡ is_free b i && not (i == n))
      → IsAllocated b r

-- A change of one bit is a change of one index.
is_free-put_bit :
    (n o : ℕ) (v : Bool) (b : Bitmap) (i : ℕ)
    → o < word_bits
    → is_free (put_bit n o v b) i ≡ (if i == n * word_bits + o then v else is_free b i)
is_free-put_bit n o v b i h = ground arith

-- `bitmap_alloc` always returns: its `assert(0)` is never reached. It gives the lowest free index and
-- takes it and no other, or it reports that no index is free.
pub bitmap_alloc-IsAllocated :
    (b : Bitmap) → (r : Option ℕ × Bitmap) × (bitmap_alloc b ≡ some r) × IsAllocated b r
unfolding bitmap_alloc
bitmap_alloc-IsAllocated b = elim (walk b.nwords 0 b.map) [
  | full run none_left ↦ (
    (none, b),
    rw (run, bitmap_alloc) refl,
    exhausted refl (λ i h.
        none_left (i / word_bits) (i % word_bits) (omega arith) (omega arith) (omega arith)),
  )
  | found n o run h k c s below before ↦
      let v = not (b.map n o) in
      let same : is_free b (n * word_bits + o) ≡ true = ground arith in
      (
        (some (n * word_bits + o), put_bit n o v b),
        rw (run, bitmap_alloc) refl,
        taken (n * word_bits + o) refl (omega arith) same
            (λ i x. elim (ℕ-cases (i / word_bits) n) [
              | inl e ↦
                  subst (λ m. b.map m (i % word_bits) ≡ false) (sym e)
                    (below (i % word_bits) (omega arith))
              | inr d ↦
                  before (i / word_bits) (i % word_bits) (omega arith) (omega arith) (omega arith)
            ])
            (λ i. ground (arith, is_free-put_bit n o v b i c)),
      )
]

-- `bitmap_free` of an index below `nbits` that is in use returns, and frees it and no other.
pub bitmap_free-is_free :
    (index : ℕ) (b : Bitmap)
    → index < b.nbits
    → is_free b index ≡ false
    → (b' : Bitmap) × (bitmap_free index b ≡ some b')
      × ((i : ℕ) → is_free b' i ≡ (if i == index then true else is_free b i))
unfolding bitmap_free
bitmap_free-is_free index b h u =
    let inside : ltb index b.nbits ≡ true = ground arith in
    (
      put_bit (index / word_bits) (index % word_bits) true b,
      rw (inside, u) refl,
      λ i.
          ground
            (arith, is_free-put_bit (index / word_bits) (index % word_bits) true b i (omega arith)),
    )
