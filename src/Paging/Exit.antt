-- ===== src/Paging/Exit.antt =====
-- `exit_range`: the page tables of a range go back to the allocator.
use mips.Base.{
  ℕ, ◌+◌, ◌<◌, ◌==◌, ◌≡◌, refl, ap, true, false, List, [], mem, count, ◌&&◌, one_if, if◌then◌else◌,
  arith, inl, inr, ◌⊎◌, Bool-cases, ℕ-cases, ==_refl, sym, ◌∙◌, some,
}
use mips.Buddy.{Buddy, buddy_free_pages}
use mips.Buddy.Blocks.{covers}
use mips.Buddy.Sums.{sum_below-zero}
use mips.Buddy.Single.{IsTakenBack, free_one-IsTakenBack}
use mips.Paging.{Memory, present, page_ref, store, pdx, pde2page}
use mips.Paging.Range.{exit_table}
use mips.Paging.Entry.{page_of}
use mips.Paging.Grid.{grid-change}
use mips.Paging.Uses.{
  Words, uses, put, pde_uses, table_uses, pde_uses-table, pde_uses-IsKept, leaf_uses, ne_of_mem,
  IsTable, kept_ne, others,
}
use mips.Paging.Valid.{IsPaged, IsUsable, IsUsable-framed, pde-IsTable}
use mips.Paging.Table.{pte_at}
use mips.Paging.Walk.{pa2page-some}
use mips.Paging.Remove.{pte_at-table, leaf_uses-absent, absent_zero}
use mips.Paging.Fresh.{free_page-run}

-- No entry of the table of directory `d` at `i` names a page.
abbrev pub IsBare : (w : Words) (d i : ℕ) → Type 0
IsBare w d i = (j : ℕ) → j < 1024 → present (pte_at w d i j) ≡ false

-- An entry of a directory is cleared: its table had no entries.
uses-drop_table :
    (w : Words) (ds : List ℕ) (d i t q : ℕ)
    → IsTable w ds d i t
    → mem d ds ≡ true
    → ((b k : ℕ)
        → mem b ds ≡ true
        → k < 1024
        → present (w b k) ≡ true
        → (page_of (w b k) == d) ≡ false)
    → IsBare w d i
    → uses (put d i 0 w) ds q + one_if (t == q) ≡ uses w ds q
unfolding uses table_uses pde_uses
uses-drop_table w ds d i t q a here apart bare =
    let u = put d i 0 w in
    let change =
      grid-change ds d i (λ b k. pde_uses w (w b k) q) (λ b k. pde_uses u (u b k) q) a.once a.small
        (λ b k m l o.
          ap (λ x. pde_uses u x q) (rw o refl)
          ∙ pde_uses-IsKept w u (w b k) q
              (λ y. kept_ne w d i 0 (page_of (w b k)) (apart b k m l y))) in
    omega (
      arith,
      change,
      pde_uses-table w (w d i) t q a.there a.at,
      ap (λ x. pde_uses u x q) written ∙ none_used,
      empty,
    )
  where
    written : put d i 0 w d i ≡ 0
    written = rw (==_refl d, ==_refl i) refl

    none_used : pde_uses (put d i 0 w) 0 q ≡ 0
    none_used = rw (pde_uses, absent_zero) refl

    empty : table_uses w t q ≡ 0
    empty =
        sum_below-zero 1024 (λ j. leaf_uses (w t j) q)
          (λ j h.
            leaf_uses-absent (w t j) q (sym (ap present (pte_at-table w ds d i t j a)) ∙ bare j h))

-- What the free of a table leaves.
pub record IsExited (ds : List ℕ) (d i : ℕ) (m m' : Memory) : Type 0 where
  pub paged : IsPaged ds [] m'
  pub gone : present (m'.words d i) ≡ false
  pub others : (b k : ℕ) → (b == d && k == i) ≡ false → mem b ds ≡ true → m'.words b k ≡ m.words b k
  pub entries :
      (b k j : ℕ)
      → mem b ds ≡ true
      → k < 1024
      → (b == d && k == i) ≡ false
      → pte_at m'.words b k j ≡ pte_at m.words b k j
  pub free :
      (q : ℕ)
      → covers m'.phys q
        ≡ covers m.phys q + one_if (present (m.words d i) && q == page_of (m.words d i))

-- The table `t`, without entries, has been freed.
module _ (ds : List ℕ) (m : Memory) (d i t : ℕ) (s : Buddy) (v : IsPaged ds [] m)
    (here : mem d ds ≡ true) (a : IsTable m.words ds d i t) (bare : IsBare m.words d i)
    (back : IsTakenBack t m.phys s) where
  abbrev left : Memory
  left = store (d, i) 0 (record m { phys = s })

  apart :
      (b k : ℕ)
      → mem b ds ≡ true
      → k < 1024
      → present (m.words b k) ≡ true
      → (page_of (m.words b k) == d) ≡ false
  apart b k mb l y =
      let n = ne_of_mem d (page_of (m.words b k)) ds here (pde-IsTable ds [] m b k v mb l y).out in
      ground (arith, n)

  ref : (q : ℕ) → (q == t) ≡ false → (s.pages q).ref ≡ page_ref q m
  ref q n = back.refs q ∙ rw n refl

  left-IsPaged : page_ref t m ≡ 1 → IsUsable t m.phys → IsPaged ds [] left
  unfolding count
  left-IsPaged one u = record {
    buddy = back.buddy;
    few = v.few;
    small = rw back.bound v.small;
    dirs = λ b mb.
        let (once, out, zero_ref) = v.dirs b mb in
        let n = ne_of_mem b t ds mb a.out in
        (once, back.cover b ∙ rw (out, n) refl, ref b n ∙ zero_ref);
    counted = λ q. counted q (Bool-cases (q == t));
    alone = λ b k mb l y. alone b k mb l y (Bool-cases (b == d && k == i));
    usable = λ q pos. usable q pos (Bool-cases (q == t));
    quiet = λ q c. quiet q c (Bool-cases (q == t));
  }
    where
      counted :
          (q : ℕ)
          → ((q == t) ≡ true) ⊎ ((q == t) ≡ false)
          → (s.pages q).ref ≡ uses left.words ds q + 0
      counted q (inl e) =
          let same : q ≡ t = ground (arith, e) in
          let used = uses-drop_table m.words ds d i t t a here apart bare in
          rw same (
            omega (
              arith,
              used,
              v.counted t,
              one,
              ap one_if (==_refl t),
              back.refs t ∙ ap (λ b. if b then 0 else page_ref t m) (==_refl t),
            ))
      counted q (inr n) =
          let used = uses-drop_table m.words ds d i t q a here apart bare in
          let other : (t == q) ≡ false = ground (arith, n) in
          omega (arith, used, v.counted q, ref q n, ap one_if other)

      alone :
          (b k : ℕ)
          → mem b ds ≡ true
          → k < 1024
          → present (left.words b k) ≡ true
          → ((b == d && k == i) ≡ true) ⊎ ((b == d && k == i) ≡ false)
          → page_ref (page_of (left.words b k)) left ≡ 1
      alone b k mb l y (inl e) =
          let cleared : left.words b k ≡ 0 = rw e refl in
          absurd (ground (arith, sym (ap present cleared) ∙ y, absent_zero))
      alone b k mb l y (inr n) =
          let old : left.words b k ≡ m.words b k = rw n refl in
          let y2 = sym (ap present old) ∙ y in
          ap (λ w. page_ref (page_of w) left) old
          ∙ ref (page_of (m.words b k)) (others m.words ds d i t b k a mb l n y2)
          ∙ v.alone b k mb l y2

      usable : (q : ℕ) → 0 < (s.pages q).ref → ((q == t) ≡ true) ⊎ ((q == t) ≡ false) → IsUsable q s
      usable q pos (inl e) =
          let none_there : (s.pages q).ref ≡ 0 = back.refs q ∙ rw e refl in
          absurd (omega (arith, none_there))
      usable q pos (inr n) =
          IsUsable-framed q m.phys s back.frame back.bound (v.usable q (omega (arith, ref q n)))

      quiet :
          (q : ℕ)
          → 0 < covers s q
          → ((q == t) ≡ true) ⊎ ((q == t) ≡ false)
          → ((s.pages q).ref ≡ 0) × (q < s.npage)
      quiet q c (inl e) =
          let same : q ≡ t = ground (arith, e) in
          (back.refs q ∙ rw e refl, rw (same, back.bound) u.inside)
      quiet q c (inr n) =
          let old = v.quiet q (omega (arith, back.cover q, ap one_if n)) in
          (ref q n ∙ old.0, rw back.bound old.1)

  left-entries :
      (b k j : ℕ)
      → mem b ds ≡ true
      → k < 1024
      → (b == d && k == i) ≡ false
      → pte_at left.words b k j ≡ pte_at m.words b k j
  unfolding pte_at
  left-entries b k j mb l n = elim (Bool-cases (present (m.words b k))) [
    | inr o ↦ rw (n, o) refl
    | inl y ↦ rw (n, y) (kept_ne m.words d i 0 (page_of (m.words b k)) (apart b k mb l y) j)
  ]

  left-IsExited : page_ref t m ≡ 1 → IsUsable t m.phys → IsExited ds d i m left
  left-IsExited one u = record {
    paged = left-IsPaged one u;
    gone = rw (==_refl d, ==_refl i) absent_zero;
    others = λ b k n mb. rw n refl;
    entries = left-entries;
    free = λ q. back.cover q ∙ rw (a.there, a.at) refl;
  }

exit_run-there :
    (m : Memory) (d start t : ℕ) (s : Buddy)
    → present (m.words d (pdx start)) ≡ true
    → pde2page (m.words d (pdx start)) m ≡ some t
    → buddy_free_pages t 1 m.phys ≡ some s
    → exit_table d start m ≡ some (store (d, pdx start) 0 (record m { phys = s }))
unfolding exit_table
exit_run-there m d start t s y e run = rw (exit_table, y, e, free_page-run m t s run) refl

exit_run-absent :
    (m : Memory) (d start : ℕ)
    → present (m.words d (pdx start)) ≡ false
    → exit_table d start m ≡ some m
unfolding exit_table
exit_run-absent m d start n = rw (exit_table, n) refl

pub exit_table-IsExited :
    (ds : List ℕ) (m : Memory) (d start : ℕ)
    → IsPaged ds [] m
    → mem d ds ≡ true
    → IsBare m.words d (pdx start)
    → (m' : Memory) × (exit_table d start m ≡ some m') × IsExited ds d (pdx start) m m'
unfolding pde2page
exit_table-IsExited ds m d start v here bare = elim (Bool-cases (present (m.words d (pdx start)))) [
  | inr n ↦ (
    m,
    exit_run-absent m d start n,
    record {
      paged = v;
      gone = n;
      others = λ b k _ _. refl;
      entries = λ b k j _ _ _. refl;
      free = λ q. rw n (omega arith);
    },
  )
  | inl y ↦
      let t = page_of (m.words d (pdx start)) in
      let a = pde-IsTable ds [] m d (pdx start) v here (omega arith) y in
      let one = v.alone d (pdx start) here (omega arith) y in
      let u = v.usable t (omega (arith, one)) in
      let (s, run, back) = free_one-IsTakenBack t m.phys v.buddy (taken t one) u.clean u.above in
      (
        store (d, pdx start) 0 (record m { phys = s }),
        exit_run-there m d start t s y (pa2page-some (m.words d (pdx start)) m u.inside) run,
        left-IsExited ds m d (pdx start) t s v here a bare back one u,
      )
]
  where
    taken : (t : ℕ) → page_ref t m ≡ 1 → covers m.phys t ≡ 0
    taken t one = elim (ℕ-cases (covers m.phys t) 0) [
      | inl e ↦ e
      | inr n ↦ absurd (omega (arith, (v.quiet t (omega arith)).0, one))
    ]
