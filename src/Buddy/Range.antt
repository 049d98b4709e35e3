-- ===== src/Buddy/Range.antt =====
-- `buddy_free_pages`: a range of pages is given back as aligned blocks.
use mips.Base.{
  ℕ, zero, suc, ◌+◌, ◌-◌, ◌*◌, ◌^◌, ◌<◌, ◌≤◌, ◌≡◌, refl, ap, ◌∙◌, false, some, leb, ltb, ◌&&◌,
  one_if, arith, inl, inr, Bool-cases, ℕ-cases,
}
use mips.Buddy.{Buddy, buddy_free_pages_sub, fit_order, buddy_nr_free_pages}
use mips.Buddy.Blocks.{covers, in_block, IsBuddy}
use mips.Buddy.Merge.{IsFreed, IsTaken}
use mips.Buddy.Free.{buddy_free_pages_sub-IsFreed}

-- One for a page of the `n` pages at `p`.
abbrev pub in_range : (p n q : ℕ) → ℕ
in_range p n q = one_if (leb p q && ltb q (p + n))

-- The `n` pages at `p` are free in `s'` beside all that was free in `s`.
pub record IsReleased (p n : ℕ) (s s' : Buddy) : Type 0 where
  pub buddy : IsBuddy s'
  pub cover : (q : ℕ) → covers s' q ≡ covers s q + in_range p n q
  pub total : buddy_nr_free_pages s' ≡ buddy_nr_free_pages s + n
  pub bases : s'.mem_base ≡ s.mem_base
  pub zones : (q : ℕ) → (s'.pages q).zone_num ≡ (s.pages q).zone_num
  pub reserves : (q : ℕ) → (s'.pages q).reserved ≡ (s.pages q).reserved

-- The `n` pages at `p` are in no free block and in zone `z`, and none is reserved.
pub record IsHeld (z p n : ℕ) (s : Buddy) : Type 0 where
  pub taken : (q : ℕ) → 0 < in_range p n q → covers s q ≡ 0
  pub clean : (q : ℕ) → 0 < in_range p n q → (s.pages q).reserved ≡ false
  pub zone : (q : ℕ) → 0 < in_range p n q → (s.pages q).zone_num ≡ z

-- A block of the range, the first one.
pub first_block-IsFreed :
    (k m z p n : ℕ) (s : Buddy)
    → k < 11
    → IsBuddy s
    → IsHeld z p n s
    → 2 ^ k ≤ n
    → p ≡ s.mem_base z + m * 2 ^ k
    → (s' : Buddy) × (buddy_free_pages_sub p k s ≡ some s')
      × IsFreed k p s s'
      × IsHeld z (p + 2 ^ k) (n - 2 ^ k) s'
unfolding IsTaken
first_block-IsFreed k m z p n s h b held fits at =
    let (s', run, f) =
      buddy_free_pages_sub-IsFreed k m z p s h b
        (λ q i.
          (held.taken q (ground arith), held.clean q (ground arith), held.zone q (ground arith)))
        at in
    (
      s',
      run,
      f,
      record {
        taken = λ q i. omega (arith, f.cover q, held.taken q (ground arith), past q i);
        clean = λ q i. f.reserves q ∙ held.clean q (ground arith);
        zone = λ q i. f.zones q ∙ held.zone q (ground arith);
      },
    )
  where
    past : (q : ℕ) → 0 < in_range (p + 2 ^ k) (n - 2 ^ k) q → in_block k p q ≡ 0
    past q i = ground arith

-- A block and the rest behind it.
pub joined-IsReleased :
    (k p n : ℕ) (s s1 s' : Buddy)
    → 2 ^ k ≤ n
    → IsFreed k p s s1
    → IsReleased (p + 2 ^ k) (n - 2 ^ k) s1 s'
    → IsReleased p n s s'
joined-IsReleased k p n s s1 s' fits f r = record {
  buddy = r.buddy;
  cover = λ q. omega (arith, r.cover q, f.cover q, parts q);
  total = omega (arith, r.total, f.total);
  bases = r.bases ∙ f.bases;
  zones = λ q. r.zones q ∙ f.zones q;
  reserves = λ q. r.reserves q ∙ f.reserves q;
}
  where
    parts : (q : ℕ) → in_range p n q ≡ in_block k p q + in_range (p + 2 ^ k) (n - 2 ^ k) q
    parts q = ground arith

pub nothing-IsReleased : (p : ℕ) (s : Buddy) → IsBuddy s → IsReleased p 0 s s
nothing-IsReleased p s b = record {
  buddy = b;
  cover = λ q. ground arith;
  total = omega arith;
  bases = refl;
  zones = λ q. refl;
  reserves = λ q. refl;
}

-- An order whose blocks are in a range of less than 2 ^ 11 pages.
large_pow : (k : ℕ) → 11 ≤ k → 2048 ≤ 2 ^ k
large_pow zero h = absurd (omega arith)
large_pow (suc k) h = elim (ℕ-cases k 10) [
  | inl e ↦ rw e (omega arith)
  | inr e ↦ omega (arith, large_pow k (omega arith))
]

pub small_order : (k n : ℕ) → 2 ^ k ≤ n → n < 2048 → k < 11
small_order k n h l = elim (Bool-cases (leb 11 k)) [
  | inl e ↦ absurd (omega (arith, large_pow k (ground arith)))
  | inr e ↦ ground arith
]

-- A page at a multiple of 2 ^ k behind the base of its zone.
abbrev pub IsAligned : (b k p : ℕ) → Type 0
IsAligned b k p = (m : ℕ) × (p ≡ b + m * 2 ^ k)

pub halve-IsAligned : (b k p : ℕ) → IsAligned b (suc k) p → IsAligned b k p
halve-IsAligned b k p (m, e) = (m * 2, e ∙ ap (λ n. b + n) (pow m))
  where
    pow : (m : ℕ) → m * 2 ^ suc k ≡ m * 2 * 2 ^ k
    pow m = grind arith

pub next-IsAligned : (b k p : ℕ) → IsAligned b k p → IsAligned b k (p + 2 ^ k)
next-IsAligned b k p (m, e) = (m + 1, omega (arith, e, step m (2 ^ k)))
  where
    step : (m t : ℕ) → (m + 1) * t ≡ m * t + t
    step m t = grind arith

-- `fit_order` gives an order that is not above the given one, and a block that fits.
pub fit_order-IsAligned :
    (order n b p : ℕ)
    → 0 < n
    → IsAligned b order p
    → (2 ^ fit_order order n ≤ n) × IsAligned b (fit_order order n) p
unfolding fit_order
fit_order-IsAligned zero n b p h a = (omega arith, a)
fit_order-IsAligned (suc order) n b p h a = elim (Bool-cases (ltb n (2 ^ suc order))) [
  | inl e ↦ rw e (fit_order-IsAligned order n b p h (halve-IsAligned b order p a))
  | inr e ↦ rw e (ground arith, a)
]
