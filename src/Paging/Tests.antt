-- ===== src/Paging/Tests.antt =====
-- A memory of sixteen pages: page 1 is an empty directory, pages 4 to 15 are free.
use mips.Base.{
  none, some, Bool-cases, inl, inr, ℕ, ◌==◌, ◌≡◌, ◌<◌, refl, subst, Option, [], ◌∷◌, count, leb,
  ◌||◌, if◌then◌else◌, arith, true, false, mem, ap, ◌&&◌, ◌∙◌,
}
use mips.Proc.{has_flag}
use mips.Buddy.{
  Buddy, buddy_alloc_pages, buddy_alloc_pages_sub, getorder, give_rest, buddy_free_pages,
  buddy_free_pages_sub, page2idx, reset_pages, merge, page_is_buddy, idx2page,
}
use mips.Buddy.Sums.{sum_below}
use mips.Buddy.Blocks.{covers, covered, IsBuddy}
use mips.Paging.{
  Memory, present, get_pte, page_insert, page_remove, add_table, entry_of, pde2page, pa2page,
  page_ref_inc, clear_page, replace_pte, page_remove_pte, alloc_page,
}
use mips.Paging.Range.{unmap_range, exit_range, pgdir_alloc_page}
use mips.Paging.Table.{pte_at}
use mips.Paging.Remove.{absent_zero}
use mips.Paging.Exit.{IsBare}
use mips.Paging.Leave.{IsLeft, exit_range-IsLeft}
use mips.Paging.Fresh.{IsAllocated, pgdir_alloc_page-IsAllocated}
use mips.Paging.Entry.{present_iff}
use mips.Paging.Uses.{uses-none}
use mips.Paging.Valid.{IsPaged}
use mips.Paging.Hold.{IsMappable}
use mips.Paging.Insert.{IsInserted, IsMapped, page_insert-IsInserted}
use mips.Paging.Unmap.{IsUnmapped, page_remove-IsUnmapped, pte_at-absent}
use mips.Paging.Empty.{IsEmptied, unmap_range-IsEmptied}

abbrev zone : Buddy
zone = record {
  pages = λ q. record {
    ref = 0;
    reserved = leb 16 q;
    has_property = (q == 4) || (q == 8);
    other_flags = 0;
    property = if q == 4 then 2 else 3;
    zone_num = 0;
  };
  free_area = λ k.
      if k == 2
      then record { free_list = 4 ∷ []; nr_free = 1 }
      else if k == 3
      then record { free_list = 8 ∷ []; nr_free = 1 }
      else record { free_list = []; nr_free = 0 };
  mem_base = λ z. 0;
  next_zone = 1;
  npage = 16;
}

abbrev start : Memory
start = record { phys = zone; words = λ q i. 0 }

zone-IsBuddy : IsBuddy zone
unfolding covers sum_below covered count
zone-IsBuddy = record {
  counted = λ k p h. ground arith;
  numbered = λ k h. ground arith;
  valued = λ p e. ground arith;
  disjoint = λ q. ground arith;
  usable = λ q u. ground arith;
  placed = λ k p h c. elim (Bool-cases (k == 2)) [
    | inl e ↦ (0, 1, ground arith, λ q i. refl)
    | inr e ↦ (0, 1, ground arith, λ q i. refl)
  ];
}

no_entry : (d i : ℕ) → present (start.words d i) ≡ false
no_entry d i = present_iff 0

start-IsPaged : IsPaged (1 ∷ []) [] start
unfolding covers sum_below covered count mem
start-IsPaged = record {
  buddy = zone-IsBuddy;
  few = omega arith;
  small = omega arith;
  dirs = λ d here. ground arith;
  counted = λ q. omega (arith, uses-none start.words (1 ∷ []) q no_entry);
  alone = λ d i here h there. absurd (ground (arith, no_entry d i));
  usable = λ q pos. absurd (omega arith);
  quiet = λ q c. ground arith;
}

page_two : IsMappable (1 ∷ []) start 2
unfolding covers sum_below covered mem
page_two = record {
  taken = refl;
  usable = record { inside = omega arith; clean = refl; above = omega arith };
  no_dir = refl;
  no_table = λ d i here l there. absurd (ground (arith, no_entry d i));
}

dir_one : mem 1 (1 ∷ []) ≡ true
unfolding mem
dir_one = refl

-- Page 2 gets the address 0x10000000, which needs a page table.
page_insert-IsInserted_example :
    (r : ℕ × Memory) × (page_insert 1 2 0x1000_0000 6 start ≡ some r)
    × IsInserted (1 ∷ []) 1 2 0x1000_0000 6 start r
page_insert-IsInserted_example =
    page_insert-IsInserted (1 ∷ []) start 1 2 0x1000_0000 6 start-IsPaged dir_one page_two
      (omega arith)

abbrev mapped : Memory
mapped = elim (page_insert 1 2 0x1000_0000 6 start) [ none ↦ start | some (code, m) ↦ m ]

mapped_run : page_insert 1 2 0x1000_0000 6 start ≡ some (0, mapped)
unfolding page_insert get_pte alloc_page add_table entry_of pde2page pa2page page_ref_inc clear_page
    replace_pte buddy_alloc_pages getorder buddy_alloc_pages_sub give_rest buddy_free_pages
    buddy_free_pages_sub page2idx reset_pages merge page_is_buddy idx2page has_flag
mapped_run = refl

inserted-IsMapped :
    (r : ℕ × Memory)
    → page_insert 1 2 0x1000_0000 6 start ≡ some r
    → r ≡ (0, mapped)
    → IsInserted (1 ∷ []) 1 2 0x1000_0000 6 start r
    → IsMapped (1 ∷ []) 1 2 0x1000_0000 6 start mapped
inserted-IsMapped (code, m) run e (inl (_, i)) =
    let same : m ≡ mapped = cc in subst (IsMapped (1 ∷ []) 1 2 0x1000_0000 6 start) same i
inserted-IsMapped (code, m) run e (inr (f, _, _, _)) =
    let zero_code : code ≡ 0 = cc in absurd (omega (arith, f, zero_code))

mapped-IsMapped : IsMapped (1 ∷ []) 1 2 0x1000_0000 6 start mapped
mapped-IsMapped =
    let (r, run, i) =
      page_insert-IsInserted (1 ∷ []) start 1 2 0x1000_0000 6 start-IsPaged dir_one page_two
        (omega arith) in
    let same : r ≡ (0, mapped) = cc (mapped_run) in inserted-IsMapped r run same i

mapped-IsPaged : IsPaged (1 ∷ []) [] mapped
mapped-IsPaged = mapped-IsMapped.paged

page_remove-IsUnmapped_example :
    (m' : Memory) × (page_remove 1 0x1000_0000 mapped ≡ some m')
    × IsUnmapped (1 ∷ []) [] 1 0x1000_0000 mapped m'
page_remove-IsUnmapped_example =
    page_remove-IsUnmapped (1 ∷ []) [] mapped 1 0x1000_0000 mapped-IsPaged dir_one (omega arith)

-- From the page in front of the one that is there to the end of the user's addresses.
unmap_range-IsEmptied_example :
    (m' : Memory) × (unmap_range 1 0x1000_0000 0x8000_0000 mapped ≡ some m')
    × IsEmptied (1 ∷ []) 1 0x1000_0000 0x8000_0000 mapped m'
unmap_range-IsEmptied_example =
    unmap_range-IsEmptied (1 ∷ []) 1 0x1000_0000 0x8000_0000 mapped mapped-IsPaged dir_one refl refl
      refl

-- The memory with the page table, when the page is gone from it.
abbrev emptied : Memory
emptied = elim (page_remove 1 0x1000_0000 mapped) [ none ↦ start | some m ↦ m ]

emptied_run : page_remove 1 0x1000_0000 mapped ≡ some emptied
unfolding page_insert get_pte alloc_page add_table entry_of pde2page pa2page page_ref_inc clear_page
    replace_pte buddy_alloc_pages getorder buddy_alloc_pages_sub give_rest buddy_free_pages
    buddy_free_pages_sub page2idx reset_pages merge page_is_buddy idx2page has_flag page_remove
    page_remove_pte
emptied_run = refl

emptied-IsUnmapped : IsUnmapped (1 ∷ []) [] 1 0x1000_0000 mapped emptied
emptied-IsUnmapped =
    let (m, run, u) =
      page_remove-IsUnmapped (1 ∷ []) [] mapped 1 0x1000_0000 mapped-IsPaged dir_one
        (omega arith) in
    let same : m ≡ emptied = cc (emptied_run) in
    subst (IsUnmapped (1 ∷ []) [] 1 0x1000_0000 mapped) same u

start_entry : (k j : ℕ) → pte_at start.words 1 k j ≡ 0
start_entry k j = pte_at-absent start.words 1 k j (no_entry 1 k)

emptied-IsBare : (k : ℕ) → k < 1024 → IsBare emptied.words 1 k
emptied-IsBare k l j lj = elim (Bool-cases (1 == 1 && (k == 64 && j == 0))) [
  | inl e ↦
      let dir : k ≡ 64 = ground (arith, e) in
      let entry : j ≡ 0 = ground (arith, e) in rw (dir, entry) emptied-IsUnmapped.gone
  | inr n ↦
      ap present (
        emptied-IsUnmapped.others 1 k j dir_one l n
        ∙ mapped-IsMapped.entries 1 k j dir_one l
        ∙ rw n (start_entry k j))
      ∙ absent_zero
]

exit_range-IsLeft_example :
    (m' : Memory) × (exit_range 1 0x1000_0000 0x2000_0000 emptied ≡ some m')
    × IsLeft (1 ∷ []) 1 0x1000_0000 0x2000_0000 emptied m'
exit_range-IsLeft_example =
    exit_range-IsLeft (1 ∷ []) 1 0x1000_0000 0x2000_0000 emptied emptied-IsUnmapped.paged dir_one
      refl refl refl (λ k l i. emptied-IsBare k l)

pgdir_alloc_page-IsAllocated_example :
    (r : Option ℕ × Memory) × (pgdir_alloc_page 1 0x1000_1000 7 mapped ≡ some r)
    × IsAllocated (1 ∷ []) 1 0x1000_1000 7 mapped r
pgdir_alloc_page-IsAllocated_example =
    pgdir_alloc_page-IsAllocated (1 ∷ []) mapped 1 0x1000_1000 7 mapped-IsPaged dir_one
      (omega arith)
