-- ===== src/Paging/Grow.antt =====
-- `get_pte` where it makes a page table: the page it asks for and its entry.
use mips.Base.{
  ℕ, ◌+◌, ◌%◌, ◌^◌, ◌<◌, ◌==◌, ◌≡◌, refl, ap, true, false, List, ◌∷◌, length, mem, if◌then◌else◌,
  arith, inl, inr, Bool-cases, ==_refl, ◌∙◌, Option, none, some, subst, bit_or, ltb,
}
use mips.Buddy.{Buddy, buddy_nr_free_pages, buddy_alloc_pages}
use mips.Buddy.Blocks.{covers}
use mips.Buddy.Refs.{set_ref-total}
use mips.Buddy.Single.{IsGiven, IsPage, alloc_one-IsPage}
use mips.Paging.{
  Memory, Ptr, present, page_ref, page_ref_inc, clear_page, page2pa, pa2page, entry_of, add_table,
  alloc_page, get_pte, pdx, ptx, ppn,
}
use mips.Paging.Entry.{page_of, table_entry-value, page_of-high, present_iff}
use mips.Paging.Uses.{IsTable, ne_of_mem}
use mips.Paging.Valid.{IsPaged, pde-IsTable}
use mips.Paging.Hold.{IsMappable, page_ref_inc-IsPaged, page_ref_inc-IsMappable}
use mips.Paging.Table.{
  pte_at, given-IsPaged, given-IsMappable, given-IsMappable_other, tabled, tabled-IsPaged,
  tabled-pte_at, tabled-IsMappable, tabled-IsKept,
}
use mips.Paging.Walk.{IsWalked, get_pte-there, there-IsWalked, entry_of-some}

-- The new page, in use as a table.
module _ (ds h : List ℕ) (m : Memory) (d la p : ℕ) (s : Buddy) (v : IsPaged ds h m)
    (g : IsGiven p m.phys s) (here : mem d ds ≡ true)
    (absent : present (m.words d (pdx la)) ≡ false) (few : length h < 10) where
  abbrev given : Memory
  given = record m { phys = s }

  abbrev held : Memory
  held = page_ref_inc p given

  a : IsPaged ds (p ∷ h) held
  a =
      page_ref_inc-IsPaged ds h given p (given-IsPaged ds h m p s v g)
        (given-IsMappable ds h m p s v g) few

  free : (page_ref p m ≡ 0) × (p < m.phys.npage)
  free = v.quiet p (omega (arith, g.was_free))

  held_ref : (q : ℕ) → page_ref q held ≡ (if q == p then 1 else page_ref q m)
  unfolding page_ref_inc
  held_ref q = ground (arith, g.kept.0 q, free)

  one : page_ref p held ≡ 1
  one = held_ref p ∙ rw (==_refl p) refl

  small : p < 2 ^ 19
  small = omega (arith, free, v.small)

  there : present (bit_or (page2pa p) 7) ≡ true
  there = present_iff (bit_or (page2pa p) 7) ∙ rw (table_entry-value p small) (ground arith)

  at : page_of (bit_or (page2pa p) 7) ≡ p
  at = rw (table_entry-value p small) (page_of-high p 7 small (omega arith))

  u : IsMappable ds held p
  u = page_ref_inc-IsMappable ds given p p (given-IsMappable ds h m p s v g)

  held_words : held.words ≡ m.words
  unfolding page_ref_inc
  held_words = refl

  held_absent : present (held.words d (pdx la)) ≡ false
  unfolding page_ref_inc
  held_absent = absent

  held_total : buddy_nr_free_pages held.phys ≡ buddy_nr_free_pages s
  unfolding page_ref_inc
  held_total = set_ref-total p (((s.pages p).ref + 1) % 2 ^ 32) s

  held_mappable : (q : ℕ) → IsMappable ds m q → IsMappable ds held q
  held_mappable q o = page_ref_inc-IsMappable ds given p q (given-IsMappable_other ds h m p s q g o)

  other : (q : ℕ) → IsMappable ds m q → (q == p) ≡ false
  other q o = elim (Bool-cases (q == p)) [
    | inr n ↦ n
    | inl e ↦
        let same : q ≡ p = ground arith in
        absurd (omega (arith, ap (covers m.phys) same, o.taken, g.was_free))
  ]

  written :
      (tabled d (pdx la) p (bit_or (page2pa p) 7) held).words d (pdx la) ≡ bit_or (page2pa p) 7
  written = rw (==_refl d, ==_refl (pdx la)) refl

  named : page_of ((tabled d (pdx la) p (bit_or (page2pa p) 7) held).words d (pdx la)) ≡ p
  named = ap page_of written ∙ at

  other_dir : (q : ℕ) → IsMappable ds m q → (q == d) ≡ false
  other_dir q o = ground (arith, ne_of_mem d q ds here o.no_dir)

  new-IsWalked : IsWalked ds h d la p m (tabled d (pdx la) p (bit_or (page2pa p) 7) held)
  unfolding clear_page
  new-IsWalked =
      let i : pdx la < 1024 = omega arith in
      let paged =
        tabled-IsPaged ds h held d (pdx la) p (bit_or (page2pa p) 7) a one u here i held_absent
          there at in
      record {
        paged = paged;
        table =
            subst (IsTable (tabled d (pdx la) p (bit_or (page2pa p) 7) held).words ds d (pdx la))
              named
              (pde-IsTable ds h (tabled d (pdx la) p (bit_or (page2pa p) 7) held) d (pdx la) paged
                here i (ap present written ∙ there));
        same = λ b k j mb lk.
            tabled-pte_at ds h held d (pdx la) p (bit_or (page2pa p) 7) a one u here i held_absent
              there at b k j mb lk
            ∙ ap (λ w. pte_at w b k j) held_words;
        mappable = λ q o.
            tabled-IsMappable ds h held d (pdx la) p (bit_or (page2pa p) 7) a one u here i
              held_absent there at q (other q o) (held_mappable q o);
        refs = λ q o. held_ref q ∙ rw (other q o) refl;
        contents = λ q o j.
            tabled-IsKept ds h held d (pdx la) p (bit_or (page2pa p) 7) a one u here i held_absent
              there at q (other q o) (other_dir q o) j
            ∙ ap (λ w. w q j) held_words;
        total = rw absent (omega (arith, held_total, g.total));
      }

  held_bound : (clear_page p held).phys.npage ≡ s.npage
  unfolding clear_page page_ref_inc
  held_bound = refl

  add_table-run : add_table d la p given ≡ some (tabled d (pdx la) p (bit_or (page2pa p) 7) held)
  unfolding add_table pa2page
  add_table-run =
      let same : ppn (page2pa p) ≡ p = omega (arith, small) in
      let inside : ltb (ppn (page2pa p)) s.npage ≡ true = ground (arith, same, g.kept.1, free) in
      rw inside refl

  entry_of-new : entry_of d la (tabled d (pdx la) p (bit_or (page2pa p) 7) held) ≡ some (p, ptx la)
  entry_of-new =
      entry_of-some d la (tabled d (pdx la) p (bit_or (page2pa p) 7) held)
        (rw (named, held_bound, g.kept.1) free.1)
      ∙ ap (λ t. some (t, ptx la)) named

pub alloc_page-run :
    (m : Memory) (got : Option ℕ) (s : Buddy)
    → buddy_alloc_pages 1 m.phys ≡ some (got, s)
    → alloc_page m ≡ some (got, record m { phys = s })
unfolding alloc_page
alloc_page-run m got s e = rw e refl

get_pte-full :
    (m m1 : Memory) (d la : ℕ)
    → present (m.words d (pdx la)) ≡ false
    → alloc_page m ≡ some (none, m1)
    → get_pte d la true m ≡ some (none, m1)
unfolding get_pte
get_pte-full m m1 d la n e = rw (get_pte, n, e) refl

get_pte-new :
    (m m1 m2 : Memory) (d la p : ℕ) (e : Ptr)
    → present (m.words d (pdx la)) ≡ false
    → alloc_page m ≡ some (some p, m1)
    → add_table d la p m1 ≡ some m2
    → entry_of d la m2 ≡ some e
    → get_pte d la true m ≡ some (some e, m2)
unfolding get_pte
get_pte-new m m1 m2 d la p e n r1 r2 r3 = rw (get_pte, n, r1, r2, r3) refl

-- What `get_pte` with `create` gives.
abbrev pub IsFound : (ds h : List ℕ) (d la : ℕ) → Memory → Option Ptr × Memory → Type 0
IsFound ds h d la m (none, m') =
    (m' ≡ m) × (present (m.words d (pdx la)) ≡ false) × ((q : ℕ) → covers m.phys q ≡ 0)
IsFound ds h d la m (some p, m') = (p.1 ≡ ptx la) × IsWalked ds h d la p.0 m m'

pub get_pte-IsFound :
    (ds h : List ℕ) (m : Memory) (d la : ℕ)
    → IsPaged ds h m
    → mem d ds ≡ true
    → length h < 10
    → (r : Option Ptr × Memory) × (get_pte d la true m ≡ some r) × IsFound ds h d la m r
get_pte-IsFound ds h m d la v here few = elim (Bool-cases (present (m.words d (pdx la)))) [
  | inl y ↦ (
    (some (page_of (m.words d (pdx la)), ptx la), m),
    get_pte-there ds h m d la true v here y,
    (refl, there-IsWalked ds h m d la v here y),
  )
  | inr n ↦ let (r, run, a) = alloc_one-IsPage m.phys v.buddy in answer r n run a
]
  where
    answer :
        (r : Option ℕ × Buddy)
        → present (m.words d (pdx la)) ≡ false
        → buddy_alloc_pages 1 m.phys ≡ some r
        → IsPage m.phys r
        → (r : Option Ptr × Memory) × (get_pte d la true m ≡ some r) × IsFound ds h d la m r
    answer (none, s) n run (same, full) = (
      (none, record m { phys = s }),
      get_pte-full m (record m { phys = s }) d la n (alloc_page-run m none s run),
      (ap (λ (x : Buddy). record m { phys = x }) same, n, full),
    )
    answer (some p, s) n run g =
        let m2 =
          tabled d (pdx la) p (bit_or (page2pa p) 7) (page_ref_inc p (record m { phys = s })) in
        (
          (some (p, ptx la), m2),
          get_pte-new m (record m { phys = s }) m2 d la p (p, ptx la) n
              (alloc_page-run m (some p) s run) (add_table-run ds h m d la p s v g here n few)
              (entry_of-new ds h m d la p s v g here n few),
          (refl, new-IsWalked ds h m d la p s v g here n few),
        )
