-- ===== src/Paging/Fresh.antt =====
-- `pgdir_alloc_page`: an address gets a new page.
use mips.Base.{
  ℕ, ◌<◌, ◌≤◌, ◌==◌, ◌≡◌, refl, ap, true, false, List, [], mem, one_if, if◌then◌else◌, arith, inl,
  inr, ◌⊎◌, Bool-cases, ==_refl, sym, ◌∙◌, Option, none, some,
}
use mips.Buddy.{Buddy, buddy_alloc_pages, buddy_free_pages}
use mips.Buddy.Blocks.{covers}
use mips.Buddy.Single.{IsGiven, IsPage, IsTakenBack, alloc_one-IsPage, free_one-IsTakenBack}
use mips.Paging.{Memory, present, page_ref, page_insert, alloc_page, free_page, pdx, ptx, e_no_mem}
use mips.Paging.Range.{pgdir_alloc_page}
use mips.Paging.Entry.{page_of, entry}
use mips.Paging.Uses.{leaf_uses, ne_of_mem}
use mips.Paging.Valid.{IsPaged, IsUsable-framed, pde-IsTable}
use mips.Paging.Hold.{IsMappable}
use mips.Paging.Table.{pte_at, given-IsPaged, given-IsMappable}
use mips.Paging.Grow.{alloc_page-run}
use mips.Paging.Remove.{IsWritten, leaf-used, pte_at-table, leaf_uses-absent, absent_zero}
use mips.Paging.Unmap.{pte_at-absent}
use mips.Paging.Insert.{IsInserted, page_insert-IsInserted}

-- A page without references goes back to the allocator.
pub back-IsPaged :
    (ds : List ℕ) (m : Memory) (p : ℕ) (s : Buddy)
    → IsPaged ds [] m
    → IsMappable ds m p
    → page_ref p m ≡ 0
    → IsTakenBack p m.phys s
    → IsPaged ds [] (record m { phys = s })
back-IsPaged ds m p s v u none_there t =
    let ref : (q : ℕ) → (s.pages q).ref ≡ page_ref q m = λ q. t.refs q ∙ kept q in
    record {
      buddy = t.buddy;
      few = v.few;
      small = rw t.bound v.small;
      dirs = λ d here.
          let (once, out, zero_ref) = v.dirs d here in
          (once, t.cover d ∙ rw (out, ne_of_mem d p ds here u.no_dir) refl, ref d ∙ zero_ref);
      counted = λ q. ref q ∙ v.counted q;
      alone = λ d i here l there. ref (page_of (m.words d i)) ∙ v.alone d i here l there;
      usable =
          λ q pos. IsUsable-framed q m.phys s t.frame t.bound (v.usable q (omega (arith, ref q)));
      quiet = λ q c. still q c (Bool-cases (q == p));
    }
  where
    still :
        (q : ℕ)
        → 0 < covers s q
        → ((q == p) ≡ true) ⊎ ((q == p) ≡ false)
        → ((s.pages q).ref ≡ 0) × (q < s.npage)
    still q c (inl e) =
        let same : q ≡ p = ground (arith, e) in
        (t.refs q ∙ rw e refl, rw (same, t.bound) u.usable.inside)
    still q c (inr n) =
        let old = v.quiet q (omega (arith, t.cover q, ap one_if n)) in
        (t.refs q ∙ rw n old.0, rw t.bound old.1)

    kept : (q : ℕ) → (if q == p then 0 else page_ref q m) ≡ page_ref q m
    kept q = elim (Bool-cases (q == p)) [
      | inl e ↦ let same : q ≡ p = ground (arith, e) in rw (e, same) (sym none_there)
      | inr n ↦ rw n refl
    ]

-- The address has the page, which was free.
pub record IsFilled (ds : List ℕ) (d page la perm : ℕ) (m m' : Memory) : Type 0 where
  pub paged : IsPaged ds [] m'
  pub entries : IsWritten ds d (pdx la) (ptx la) (entry page perm) m.words m'.words
  pub was_free : covers m.phys page ≡ 1
  pub ref : page_ref page m' ≡ 1

-- What `pgdir_alloc_page` gives.
abbrev pub IsAllocated : (ds : List ℕ) (d la perm : ℕ) → Memory → Option ℕ × Memory → Type 0
IsAllocated ds d la perm m (some page, m') = IsFilled ds d page la perm m m'
IsAllocated ds d la perm m (none, m') =
    IsPaged ds [] m'
    × (m'.words ≡ m.words)
    × ((q : ℕ) → covers m'.phys q ≡ covers m.phys q)
    × (((q : ℕ) → covers m.phys q ≡ 0)
        ⊎ ((present (m.words d (pdx la)) ≡ false)
            × (p : ℕ) × ((q : ℕ) → covers m.phys q ≡ one_if (q == p))))

-- The page of an address has a reference.
pte_at-used :
    (ds : List ℕ) (m : Memory) (d la q : ℕ)
    → IsPaged ds [] m
    → mem d ds ≡ true
    → leaf_uses (pte_at m.words d (pdx la) (ptx la)) q ≤ page_ref q m
pte_at-used ds m d la q v here = elim (Bool-cases (present (m.words d (pdx la)))) [
  | inr n ↦
      let old = pte_at-absent m.words d (pdx la) (ptx la) n in
      omega (
        arith,
        leaf_uses-absent (pte_at m.words d (pdx la) (ptx la)) q (ap present old ∙ absent_zero),
      )
  | inl y ↦
      let a = pde-IsTable ds [] m d (pdx la) v here (omega arith) y in
      rw (pte_at-table m.words ds d (pdx la) (page_of (m.words d (pdx la))) (ptx la) a) (
        leaf-used ds [] m d (pdx la) (page_of (m.words d (pdx la))) (ptx la) q v here a
          (omega arith))
]

alloc_run-none :
    (m m1 : Memory) (d la perm : ℕ)
    → alloc_page m ≡ some (none, m1)
    → pgdir_alloc_page d la perm m ≡ some (none, m1)
unfolding pgdir_alloc_page
alloc_run-none m m1 d la perm e = rw (pgdir_alloc_page, e) refl

alloc_run-some :
    (m m1 m2 : Memory) (d la perm page : ℕ)
    → alloc_page m ≡ some (some page, m1)
    → page_insert d page la perm m1 ≡ some (0, m2)
    → pgdir_alloc_page d la perm m ≡ some (some page, m2)
unfolding pgdir_alloc_page
alloc_run-some m m1 m2 d la perm page e run = rw (pgdir_alloc_page, e, run) refl

alloc_run-full :
    (m m1 m2 m3 : Memory) (d la perm page : ℕ)
    → alloc_page m ≡ some (some page, m1)
    → page_insert d page la perm m1 ≡ some (e_no_mem, m2)
    → free_page page m2 ≡ some m3
    → pgdir_alloc_page d la perm m ≡ some (none, m3)
unfolding pgdir_alloc_page
alloc_run-full m m1 m2 m3 d la perm page e run back = rw (pgdir_alloc_page, e, run, back) refl

pub free_page-run :
    (m : Memory) (page : ℕ) (s : Buddy)
    → buddy_free_pages page 1 m.phys ≡ some s
    → free_page page m ≡ some (record m { phys = s })
unfolding free_page
free_page-run m page s e = rw e refl

module _ (ds : List ℕ) (m : Memory) (d la perm : ℕ) (v : IsPaged ds [] m) (here : mem d ds ≡ true)
    (l : perm < 4096) where
  inserted :
      (page : ℕ) (s : Buddy) (r : ℕ × Memory)
      → IsGiven page m.phys s
      → alloc_page m ≡ some (some page, record m { phys = s })
      → page_insert d page la perm (record m { phys = s }) ≡ some r
      → IsInserted ds d page la perm (record m { phys = s }) r
      → (r : Option ℕ × Memory) × (pgdir_alloc_page d la perm m ≡ some r)
        × IsAllocated ds d la perm m r
  inserted page s (code, m2) g e run (inl (ok, i)) =
      let u = given-IsMappable ds [] m page s v g in
      let unused =
        pte_at-used ds (record m { phys = s }) d la page (given-IsPaged ds [] m page s v g) here in
      let none_there : page_ref page m ≡ 0 = (v.quiet page (omega (arith, g.was_free))).0 in
      let ref : page_ref page m2 ≡ 1 =
        omega (arith, i.refs page u, unused, g.kept.0 page, none_there, ap one_if (==_refl page)) in
      (
        (some page, m2),
        alloc_run-some m (record m { phys = s }) m2 d la perm page e
            (run ∙ ap (λ c. some (c, m2)) ok),
        record { paged = i.paged; entries = i.entries; was_free = g.was_free; ref = ref },
      )
  inserted page s (code, m2) g e run (inr (bad, same, n, full)) =
      let m1 : Memory = record m { phys = s } in
      let v1 = given-IsPaged ds [] m page s v g in
      let u = given-IsMappable ds [] m page s v g in
      let (s3, back, t) =
        free_one-IsTakenBack page s v1.buddy u.taken u.usable.clean u.usable.above in
      let free = v.quiet page (omega (arith, g.was_free)) in
      (
        (none, record m { phys = s3 }),
        alloc_run-full m m1 m1 (record m { phys = s3 }) d la perm page e
            (run ∙ ap (λ c. some (c, m2)) bad ∙ ap (λ x. some (e_no_mem, x)) same)
            (free_page-run m1 page s3 back),
        (
          back-IsPaged ds m1 page s3 v1 u (g.kept.0 page ∙ free.0) t,
          refl,
          λ q. omega (arith, t.cover q, g.cover q),
          inr (n, page, λ q. omega (arith, g.cover q, full q)),
        ),
      )

-- With every reference counted, `pgdir_alloc_page` returns for every address and permissions below
-- 4096. Either it gives a page that was free: the entry of the address names it with the
-- permissions, it has that one reference, and the entries of all other addresses of all directories
-- are as before. Or it gives none: no word has changed, exactly the pages that were free are free, and no
-- page was free, or one was that the missing page table would have needed. Every reference is
-- counted afterwards.
pub pgdir_alloc_page-IsAllocated :
    (ds : List ℕ) (m : Memory) (d la perm : ℕ)
    → IsPaged ds [] m
    → mem d ds ≡ true
    → perm < 4096
    → (r : Option ℕ × Memory) × (pgdir_alloc_page d la perm m ≡ some r)
      × IsAllocated ds d la perm m r
pgdir_alloc_page-IsAllocated ds m d la perm v here l =
    let (r, run, a) = alloc_one-IsPage m.phys v.buddy in answer r run a
  where
    answer :
        (r : Option ℕ × Buddy)
        → buddy_alloc_pages 1 m.phys ≡ some r
        → IsPage m.phys r
        → (r : Option ℕ × Memory) × (pgdir_alloc_page d la perm m ≡ some r)
          × IsAllocated ds d la perm m r
    answer (none, s) run (same, full) = (
      (none, record m { phys = s }),
      alloc_run-none m (record m { phys = s }) d la perm (alloc_page-run m none s run),
      rw same (v, refl, λ q. refl, inl full),
    )
    answer (some page, s) run g =
        let m1 : Memory = record m { phys = s } in
        let (r, run2, i) =
          page_insert-IsInserted ds m1 d page la perm (given-IsPaged ds [] m page s v g) here
            (given-IsMappable ds [] m page s v g) l in
        inserted ds m d la perm v here l page s r g (alloc_page-run m (some page) s run) run2 i
