-- ===== src/Buddy/Refs.antt =====
-- The reference count of a page is nothing to the allocator.
use mips.Base.{ℕ, ◌==◌, ◌≡◌, refl, ap, ◌∙◌, if◌then◌else◌, arith, one_if, sym}
use mips.Buddy.{Buddy, put_page, buddy_nr_free_pages, nr_free_below}
use mips.Buddy.Blocks.{covers, IsBuddy, IsPlaced-same, is_head}
use mips.Buddy.Frame.{IsFramed}

abbrev pub set_ref : (p r : ℕ) → Buddy → Buddy
set_ref p r s = put_page p (record (s.pages p) { ref = r }) s

module _ (p r : ℕ) (s : Buddy) where
  pub set_ref-ref :
      (q : ℕ) → ((set_ref p r s).pages q).ref ≡ (if q == p then r else (s.pages q).ref)
  set_ref-ref q = ground arith

  pub set_ref-covers : (q : ℕ) → covers (set_ref p r s) q ≡ covers s q
  unfolding covers
  set_ref-covers q = refl

  pub set_ref-total : buddy_nr_free_pages (set_ref p r s) ≡ buddy_nr_free_pages s
  unfolding buddy_nr_free_pages nr_free_below
  set_ref-total = refl

  pub set_ref-IsFramed : IsFramed s (set_ref p r s)
  set_ref-IsFramed = record {
    bases = refl;
    zones = λ q. ground arith;
    reserves = λ q. ground arith;
  }

  set_ref-head : (k q : ℕ) → is_head k ((set_ref p r s).pages q) ≡ is_head k (s.pages q)
  set_ref-head k q = ground arith

  pub set_ref-IsBuddy : IsBuddy s → IsBuddy (set_ref p r s)
  unfolding covers
  set_ref-IsBuddy b = record {
    counted = λ k q h. b.counted k q h ∙ ap one_if (sym (set_ref-head k q));
    numbered = b.numbered;
    valued = λ q h. ground (arith, b.valued q);
    disjoint = λ q. rw (set_ref-covers q) (b.disjoint q);
    usable = λ q h. set_ref-IsFramed.reserves q ∙ b.usable q h;
    placed = λ k q h c.
        IsPlaced-same k q s (set_ref p r s) refl set_ref-IsFramed.zones (b.placed k q h c);
  }
