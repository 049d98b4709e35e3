-- ===== src/Buddy/Request.antt =====
-- `buddy_alloc_pages`: a request of any number of pages, and its return.
use mips.Base.{
  ℕ, ◌+◌, ◌-◌, ◌^◌, ◌<◌, ◌≤◌, ◌==◌, ◌≡◌, refl, sym, subst, true, false, Option, none, some, ltb,
  arith, inl, inr, Bool-cases,
}
use mips.Buddy.{
  Buddy, getorder, buddy_alloc_pages_sub, buddy_free_pages, buddy_alloc_pages, give_rest,
  buddy_nr_free_pages,
}
use mips.Buddy.Blocks.{covers, IsBuddy}
use mips.Buddy.Alloc.{IsAllocated, IsTakenFrom, buddy_alloc_pages_sub-IsAllocated}
use mips.Buddy.Release.{buddy_free_pages-IsReleased}
use mips.Buddy.Order.{getorder-least}
use mips.Buddy.Grant.{IsGranted, IsAnswered, whole-IsGranted, part-IsGranted}

alloc_pages-none :
    (n r : ℕ) (s s1 : Buddy)
    → 0 < n
    → getorder n ≡ some r
    → buddy_alloc_pages_sub r s ≡ some (none, s1)
    → buddy_alloc_pages n s ≡ some (none, s1)
unfolding buddy_alloc_pages
alloc_pages-none n r s s1 h e run =
    let some_pages : ltb 0 n ≡ true = ground arith in rw (some_pages, e, run) refl

alloc_pages-whole :
    (n r p : ℕ) (s s1 : Buddy)
    → 0 < n
    → getorder n ≡ some r
    → buddy_alloc_pages_sub r s ≡ some (some p, s1)
    → (n == 2 ^ r) ≡ true
    → buddy_alloc_pages n s ≡ some (some p, s1)
unfolding buddy_alloc_pages give_rest
alloc_pages-whole n r p s s1 h e run all =
    let some_pages : ltb 0 n ≡ true = ground arith in rw (some_pages, e, run, all) refl

alloc_pages-part :
    (n r p : ℕ) (s s1 s2 : Buddy)
    → 0 < n
    → getorder n ≡ some r
    → buddy_alloc_pages_sub r s ≡ some (some p, s1)
    → (n == 2 ^ r) ≡ false
    → buddy_free_pages (p + n) (2 ^ r - n) s1 ≡ some s2
    → buddy_alloc_pages n s ≡ some (some p, s2)
unfolding buddy_alloc_pages give_rest
alloc_pages-part n r p s s1 s2 h e run few free =
    let some_pages : ltb 0 n ≡ true = ground arith in rw (some_pages, e, run, few, free) refl

granted :
    (n r p : ℕ) (s s1 : Buddy)
    → 0 < n
    → n ≤ 2 ^ r
    → r < 11
    → getorder n ≡ some r
    → buddy_alloc_pages_sub r s ≡ some (some p, s1)
    → IsBuddy s
    → IsTakenFrom r p s s1
    → (a : Option ℕ × Buddy) × (buddy_alloc_pages n s ≡ some a) × IsAnswered n s a
granted n r p s s1 h fits small e run b t = elim (Bool-cases (n == 2 ^ r)) [
  | inl all ↦
      let same : n ≡ 2 ^ r = ground arith in
      (
        (some p, s1),
        alloc_pages-whole n r p s s1 h e run all,
        subst (λ k. IsGranted k p s s1) (sym same) (whole-IsGranted r p s s1 b t),
      )
  | inr few ↦
      let (s2, free, g) = part-IsGranted r n p s s1 small h (ground arith) b t in
      ((some p, s2), alloc_pages-part n r p s s1 s2 h e run few free, g)
]

answered :
    (n r : ℕ) (s : Buddy) (a : Option ℕ × Buddy)
    → 0 < n
    → n ≤ 2 ^ r
    → r < 11
    → ((k : ℕ) → k < r → 2 ^ k < n)
    → getorder n ≡ some r
    → buddy_alloc_pages_sub r s ≡ some a
    → IsBuddy s
    → IsAllocated r s a
    → (a : Option ℕ × Buddy) × (buddy_alloc_pages n s ≡ some a) × IsAnswered n s a
answered n r s (none, s1) h fits small least e run b (same, empty) =
    ((none, s1), alloc_pages-none n r s s1 h e run, (same, λ k i j. empty k (order_le k i) j))
  where
    order_le : (k : ℕ) → n ≤ 2 ^ k → r ≤ k
    order_le k i = elim (Bool-cases (ltb k r)) [
      | inl l ↦ absurd (omega (arith, least k (ground arith)))
      | inr l ↦ ground arith
    ]
answered n r s (some p, s1) h fits small least e run b t = granted n r p s s1 h fits small e run b t

-- With every free page in one free block, `buddy_alloc_pages` of 1 to 2 ^ MAX_ORDER pages passes its
-- assertions and returns. It gives exactly as many pages, one behind the other in one zone, that
-- were free and are so no longer, with all other free pages left free and the invariant kept; or it
-- gives none and changes nothing, and then no free block had as many pages.
pub buddy_alloc_pages-IsAnswered :
    (n : ℕ) (s : Buddy)
    → 0 < n
    → n ≤ 1024
    → IsBuddy s
    → (a : Option ℕ × Buddy) × (buddy_alloc_pages n s ≡ some a) × IsAnswered n s a
buddy_alloc_pages-IsAnswered n s h l b =
    let (r, e, small, fits, least) = getorder-least n l in
    let (a, run, t) = buddy_alloc_pages_sub-IsAllocated r s small b in
    answered n r s a h fits small least e run b t

-- What a request of 1 to 2 ^ MAX_ORDER pages has given can be given back: `buddy_free_pages` passes
-- its assertions and returns, and then the same pages are free as before the request.
pub buddy_free_pages-buddy_alloc_pages :
    (n page : ℕ) (s s1 : Buddy)
    → 0 < n
    → n ≤ 1024
    → IsBuddy s
    → buddy_alloc_pages n s ≡ some (some page, s1)
    → (s2 : Buddy) × (buddy_free_pages page n s1 ≡ some s2)
      × IsBuddy s2
      × ((q : ℕ) → covers s2 q ≡ covers s q)
      × (buddy_nr_free_pages s2 ≡ buddy_nr_free_pages s)
buddy_free_pages-buddy_alloc_pages n page s s1 h l b run =
    let (a, run', t) = buddy_alloc_pages-IsAnswered n s h l b in
    let same : a ≡ (some page, s1) = cc in
    let g : IsGranted n page s s1 = subst (λ x. IsAnswered n s x) same t in
    let (s2, free, r) =
      buddy_free_pages-IsReleased page n g.zone s1 h (omega arith) g.buddy g.held g.above in
    (s2, free, r.buddy, λ q. omega (arith, r.cover q, g.cover q), omega (arith, r.total, g.total))
