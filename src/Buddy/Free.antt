-- ===== src/Buddy/Free.antt =====
-- `buddy_free_pages_sub`: what it gives back to the free blocks.
use mips.Base.{
  count, ℕ, zero, suc, ◌+◌, ◌-◌, ◌*◌, ◌^◌, ◌<◌, ◌≤◌, ◌==◌, ◌≡◌, refl, sym, ◌∙◌, subst, true, false,
  some, arith, ==_ne, bit_and,
}
use mips.Buddy.{
  Buddy, put_page, page2idx, reset_pages, merge, buddy_free_pages_sub, buddy_nr_free_pages,
}
use mips.Buddy.Bits.{and-mask}
use mips.Buddy.Blocks.{IsPlaced-same, in_block_self, covers, IsBuddy, no_property}
use mips.Buddy.Merge.{IsFreed, IsTaken, merge-IsFreed}

-- The free blocks are those of `s`, and so are the flags that the blocks need.
record IsReset (s s' : Buddy) : Type 0 where
  pub areas : s'.free_area ≡ s.free_area
  pub bases : s'.mem_base ≡ s.mem_base
  pub reserves : (q : ℕ) → (s'.pages q).reserved ≡ (s.pages q).reserved
  pub valid : (q : ℕ) → (s'.pages q).has_property ≡ (s.pages q).has_property
  pub values : (q : ℕ) → (s'.pages q).property ≡ (s.pages q).property
  pub zones : (q : ℕ) → (s'.pages q).zone_num ≡ (s.pages q).zone_num

reset_pages-IsReset :
    (n p : ℕ) (s : Buddy)
    → ((q : ℕ)
        → p ≤ q
        → q < p + n
        → ((s.pages q).reserved ≡ false) × ((s.pages q).has_property ≡ false))
    → (s' : Buddy) × (reset_pages n p s ≡ some s') × IsReset s s'
unfolding reset_pages
reset_pages-IsReset zero p s h = (
  s,
  refl,
  record {
    areas = refl;
    bases = refl;
    reserves = λ q. refl;
    valid = λ q. refl;
    values = λ q. refl;
    zones = λ q. refl;
  },
)
reset_pages-IsReset (suc n) p s h =
    let (clean, bare) = h p (omega arith) (omega arith) in
    let t : Buddy =
      put_page p
        (record (s.pages p) { ref = 0; reserved = false; has_property = false; other_flags = 0 })
        s in
    let (s', run, r) =
      reset_pages-IsReset n (p + 1) t
        (λ q i j. (rw (==_ne q p (λ e. absurd (omega arith))) (h q (omega arith) (omega arith)))) in
    (
      s',
      rw (clean, bare) run,
      record {
        areas = r.areas;
        bases = r.bases;
        reserves = λ q. r.reserves q ∙ ground (arith, clean);
        valid = λ q. r.valid q ∙ ground (arith, bare);
        values = λ q. r.values q ∙ ground arith;
        zones = λ q. r.zones q ∙ ground arith;
      },
    )

module _ (s s' : Buddy) (r : IsReset s s') where
  covers-reset : (q : ℕ) → covers s' q ≡ covers s q
  unfolding covers
  covers-reset q = rw r.areas refl

  total-reset : buddy_nr_free_pages s' ≡ buddy_nr_free_pages s
  unfolding buddy_nr_free_pages
  total-reset = rw r.areas refl

  reset-IsBuddy : IsBuddy s → IsBuddy s'
  reset-IsBuddy b = record {
    counted = λ k p h. rw (r.areas, r.valid p, r.values p) (b.counted k p h);
    numbered = λ k h. rw r.areas (b.numbered k h);
    valued = λ p e. rw (r.values p) (b.valued p (sym (r.valid p) ∙ e));
    disjoint = λ q. rw (covers-reset q) (b.disjoint q);
    usable = λ q u. r.reserves q ∙ b.usable q (omega (arith, covers-reset q));
    placed = λ k p h c.
        IsPlaced-same k p s s' r.bases r.zones
          (b.placed k p h (subst (λ f. 0 < count p (f k).free_list) r.areas c));
  }

after_reset : (k p : ℕ) (s s1 s' : Buddy) → IsReset s s1 → IsFreed k p s1 s' → IsFreed k p s s'
after_reset k p s s1 s' r f = record {
  buddy = f.buddy;
  cover = λ q. omega (arith, f.cover q, covers-reset s s1 r q);
  total = omega (arith, f.total, total-reset s s1 r);
  bases = f.bases ∙ r.bases;
  zones = λ q. f.zones q ∙ r.zones q;
  reserves = λ q. f.reserves q ∙ r.reserves q;
}

-- With every free page in one free block, the pages of an aligned block that are neither free nor
-- reserved become free by `buddy_free_pages_sub`: it passes its assertions and returns, exactly these
-- pages are free in addition, the count of free pages included, and the invariant is kept, however
-- many buddies are merged.
pub buddy_free_pages_sub-IsFreed :
    (k m z p : ℕ) (s : Buddy)
    → k < 11
    → IsBuddy s
    → IsTaken z k p s
    → p ≡ s.mem_base z + m * 2 ^ k
    → (s' : Buddy) × (buddy_free_pages_sub p k s ≡ some s') × IsFreed k p s s'
unfolding buddy_free_pages_sub page2idx IsTaken
buddy_free_pages_sub-IsFreed k m z p s h b e at =
    let here : (s.pages p).zone_num ≡ z = (e p (omega (arith, in_block_self k p))).2 in
    let index : p - s.mem_base (s.pages p).zone_num ≡ m * 2 ^ k = rw here (omega arith) in
    let masked : (bit_and (m * 2 ^ k) (2 ^ k - 1) == 0) ≡ true = rw (and-mask k m) refl in
    let (s1, run, r) = reset_pages-IsReset (2 ^ k) p s (λ q i j.
      let (none_at, clean, zone) = e q (ground arith) in (clean, no_property s q b none_at)) in
    let place : s1.mem_base z + m * 2 ^ k ≡ p = rw r.bases (sym at) in
    let s' = merge (10 - k) k z (m * 2 ^ k) s1 in
    let t : IsTaken z k (s1.mem_base z + m * 2 ^ k) s1 = rw place (λ q i.
      (covers-reset s s1 r q ∙ (e q i).0, r.reserves q ∙ (e q i).1, r.zones q ∙ (e q i).2)) in
    let free : IsFreed k p s1 s' =
      subst (λ x. IsFreed k x s1 s') place
        (merge-IsFreed (10 - k) k z m s1 (omega arith) (reset-IsBuddy s s1 r b) t) in
    (s', rw (index, masked, run) (rw (r.zones p, here) refl), after_reset k p s s1 s' r free)
