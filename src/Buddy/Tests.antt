-- ===== src/Buddy/Tests.antt =====
-- A zone of sixteen pages, the last twelve of them free, and the theorems at it.
use mips.Base.{
  ◌+◌, none, some, Bool-cases, inl, inr, ℕ, ◌==◌, ◌≡◌, refl, Option, some, [], ◌∷◌, count, leb,
  ◌||◌, if◌then◌else◌, arith,
}
use mips.Buddy.{
  buddy_init_memmap, buddy_alloc_pages, getorder, buddy_alloc_pages_sub, give_rest,
  buddy_free_pages, buddy_free_pages_sub, page2idx, reset_pages, merge, page_is_buddy, idx2page,
  buddy_nr_free_pages, Buddy,
}
use mips.Buddy.Sums.{sum_below}
use mips.Buddy.Blocks.{covers, covered, IsBuddy}
use mips.Buddy.Range.{in_range, IsReleased, IsHeld}
use mips.Buddy.Grant.{IsAnswered}
use mips.Buddy.Request.{buddy_alloc_pages-IsAnswered, buddy_free_pages-buddy_alloc_pages}
use mips.Buddy.Zone.{IsZoned, buddy_init_memmap-IsBuddy}
use mips.Buddy.Release.{buddy_free_pages-IsReleased}

-- The pages from 4 on are free: 4 to 7 and 8 to 15.
abbrev zone : Buddy
zone = record {
  pages = λ q. record {
    ref = 0;
    reserved = leb 16 q;
    has_property = (q == 4) || (q == 8);
    other_flags = 0;
    property = if q == 4 then 2 else 3;
    zone_num = 0;
  };
  free_area = λ k.
      if k == 2
      then record { free_list = 4 ∷ []; nr_free = 1 }
      else if k == 3
      then record { free_list = 8 ∷ []; nr_free = 1 }
      else record { free_list = []; nr_free = 0 };
  mem_base = λ z. 0;
  next_zone = 1;
  npage = 16;
}

zone-IsBuddy : IsBuddy zone
unfolding covers sum_below covered count
zone-IsBuddy = record {
  counted = λ k p h. ground arith;
  numbered = λ k h. ground arith;
  valued = λ p e. ground arith;
  disjoint = λ q. ground arith;
  usable = λ q u. ground arith;
  placed = λ k p h c. elim (Bool-cases (k == 2)) [
    | inl e ↦ (0, 1, ground arith, λ q i. refl)
    | inr e ↦ (0, 1, ground arith, λ q i. refl)
  ];
}

zone-IsHeld : IsHeld 0 1 3 zone
unfolding covers sum_below covered
zone-IsHeld = record {
  taken = λ q i. ground arith;
  clean = λ q i. ground arith;
  zone = λ q i. refl;
}

buddy_free_pages-IsReleased_example :
    (s' : Buddy) × (buddy_free_pages 1 3 zone ≡ some s') × IsReleased 1 3 zone s'
buddy_free_pages-IsReleased_example =
    buddy_free_pages-IsReleased 1 3 0 zone (omega arith) (omega arith) zone-IsBuddy zone-IsHeld
      (omega arith)

buddy_alloc_pages-IsAnswered_example :
    (a : Option ℕ × Buddy) × (buddy_alloc_pages 3 zone ≡ some a) × IsAnswered 3 zone a
buddy_alloc_pages-IsAnswered_example =
    buddy_alloc_pages-IsAnswered 3 zone (omega arith) (omega arith) zone-IsBuddy

-- The state behind a request of three pages, which gives pages 4 to 6.
abbrev behind : Buddy
behind = elim (buddy_alloc_pages 3 zone) [ none ↦ zone | some (got, s) ↦ s ]

three_pages : buddy_alloc_pages 3 zone ≡ some (some 4, behind)
unfolding buddy_alloc_pages getorder buddy_alloc_pages_sub give_rest buddy_free_pages
    buddy_free_pages_sub page2idx reset_pages merge page_is_buddy idx2page
three_pages = refl

buddy_free_pages-buddy_alloc_pages_example :
    (s2 : Buddy) × (buddy_free_pages 4 3 behind ≡ some s2)
    × IsBuddy s2
    × ((q : ℕ) → covers s2 q ≡ covers zone q)
    × (buddy_nr_free_pages s2 ≡ buddy_nr_free_pages zone)
buddy_free_pages-buddy_alloc_pages_example =
    buddy_free_pages-buddy_alloc_pages 3 4 zone behind (omega arith) (omega arith) zone-IsBuddy
      three_pages

-- The reserved pages from 16 to 23 are the next zone.
zone-IsZoned : IsZoned 1 zone
zone-IsZoned q u = ground arith

buddy_init_memmap-IsBuddy_example :
    (s' : Buddy) × (buddy_init_memmap 16 8 zone ≡ some s')
    × IsBuddy s'
    × ((q : ℕ) → covers s' q ≡ covers zone q + in_range 16 8 q)
    × (buddy_nr_free_pages s' ≡ buddy_nr_free_pages zone + 8)
    × IsZoned 2 s'
buddy_init_memmap-IsBuddy_example =
    buddy_init_memmap-IsBuddy 16 8 zone (omega arith) (omega arith) zone-IsBuddy zone-IsZoned
      (λ q i. ground arith)
