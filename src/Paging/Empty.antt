-- ===== src/Paging/Empty.antt =====
-- `unmap_range`: the addresses of a range lose their pages.
use mips.Base.{
  ℕ, zero, suc, ◌+◌, ◌-◌, ◌*◌, ◌%◌, ◌/◌, ◌^◌, ◌<◌, ◌≤◌, ◌==◌, ◌≡◌, refl, ap, Bool, true, false,
  List, [], mem, ◌&&◌, arith, not, inl, inr, Bool-cases, ==_refl, sym, ◌∙◌, some, ltb, leb,
}
use mips.Vmm.{page_size, user_access}
use mips.Paging.{Memory, present, get_pte, page_remove_pte, pdx, ptx, table_size, table_down}
use mips.Paging.Range.{unmap_pte, unmap_page, unmap_pages, unmap_range}
use mips.Paging.Entry.{page_of}
use mips.Paging.Uses.{IsTable}
use mips.Paging.Valid.{IsPaged, pde-IsTable}
use mips.Paging.Table.{pte_at}
use mips.Paging.Walk.{get_pte-there, get_pte-absent}
use mips.Paging.Remove.{pte_at-table, page_remove_pte-IsRemoved, absent_zero}
use mips.Paging.Unmap.{IsRemoved-IsUnmapped, pte_at-absent}

-- What a round leaves.
record IsRound (ds : List ℕ) (d start next : ℕ) (m m' : Memory) : Type 0 where
  pub paged : IsPaged ds [] m'
  pub later : start + 4096 ≤ next
  pub aligned : next % 4096 ≡ 0
  pub gone : (a : ℕ) → start ≤ a → a < next → present (pte_at m'.words d (pdx a) (ptx a)) ≡ false
  pub others :
      (b k l : ℕ)
      → mem b ds ≡ true
      → k < 1024
      → (b == d && (k == pdx start && l == ptx start)) ≡ false
      → pte_at m'.words b k l ≡ pte_at m.words b k l

unmap_run-zero :
    (m : Memory) (d start t : ℕ)
    → get_pte d start false m ≡ some (some (t, ptx start), m)
    → (m.words t (ptx start) == 0) ≡ true
    → unmap_page d start m ≡ some ((start + page_size) % 2 ^ 32, m)
unfolding unmap_page unmap_pte
unmap_run-zero m d start t e z = rw (unmap_page, e, z) refl

unmap_run-some :
    (m m' : Memory) (d start t : ℕ)
    → get_pte d start false m ≡ some (some (t, ptx start), m)
    → (m.words t (ptx start) == 0) ≡ false
    → page_remove_pte (t, ptx start) m ≡ some m'
    → unmap_page d start m ≡ some ((start + page_size) % 2 ^ 32, m')
unfolding unmap_page unmap_pte
unmap_run-some m m' d start t e z run = rw (unmap_page, e, z, run) refl

module _ (ds : List ℕ) (m : Memory) (d start : ℕ) (v : IsPaged ds [] m) (here : mem d ds ≡ true)
    (low : start < 2 ^ 31) (at : start % 4096 ≡ 0) where
  absent-IsRound :
      present (m.words d (pdx start)) ≡ false
      → (unmap_page d start m ≡ some (table_down ((start + table_size) % 2 ^ 32), m))
        × IsRound ds d start (table_down ((start + table_size) % 2 ^ 32)) m m
  unfolding unmap_page
  absent-IsRound n = (
    rw (unmap_page, get_pte-absent m d start n) refl,
    record {
      paged = v;
      later = omega arith;
      aligned = omega arith;
      gone = λ a i j.
          let same : pdx a ≡ pdx start = omega arith in
          rw (same, pte_at-absent m.words d (pdx start) (ptx a) n) absent_zero;
      others = λ b k l _ _ _. refl;
    },
  )

  -- The addresses of one page.
  page_gone :
      (m' : Memory) (a : ℕ)
      → present (pte_at m'.words d (pdx start) (ptx start)) ≡ false
      → start ≤ a
      → a < (start + page_size) % 2 ^ 32
      → present (pte_at m'.words d (pdx a) (ptx a)) ≡ false
  page_gone m' a n i j =
      let dir : pdx a ≡ pdx start = omega arith in
      let entry : ptx a ≡ ptx start = omega arith in rw (dir, entry) n

  zero_word-IsRound :
      (t : ℕ)
      → IsTable m.words ds d (pdx start) t
      → get_pte d start false m ≡ some (some (t, ptx start), m)
      → (m.words t (ptx start) == 0) ≡ true
      → (unmap_page d start m ≡ some ((start + page_size) % 2 ^ 32, m))
        × IsRound ds d start ((start + page_size) % 2 ^ 32) m m
  zero_word-IsRound t a e z =
      let none_there : m.words t (ptx start) ≡ 0 = ground arith in
      (
        unmap_run-zero m d start t e z,
        record {
          paged = v;
          later = omega arith;
          aligned = omega arith;
          gone = λ b. page_gone m b (
              ap present (pte_at-table m.words ds d (pdx start) t (ptx start) a ∙ none_there)
              ∙ absent_zero);
          others = λ b k l _ _ _. refl;
        },
      )

  removed-IsRound :
      (t : ℕ)
      → IsTable m.words ds d (pdx start) t
      → get_pte d start false m ≡ some (some (t, ptx start), m)
      → (m.words t (ptx start) == 0) ≡ false
      → (m' : Memory) × (unmap_page d start m ≡ some ((start + page_size) % 2 ^ 32, m'))
        × IsRound ds d start ((start + page_size) % 2 ^ 32) m m'
  removed-IsRound t a e z =
      let (m', run, r) =
        page_remove_pte-IsRemoved ds [] m d (pdx start) t (ptx start) v here a (omega arith)
          (omega arith) in
      let u = IsRemoved-IsUnmapped ds [] m m' d start t here a r in
      (
        m',
        unmap_run-some m m' d start t e z run,
        record {
          paged = u.paged;
          later = omega arith;
          aligned = omega arith;
          gone = λ b. page_gone m' b u.gone;
          others = u.others;
        },
      )

  unmap_page-IsRound :
      (next : ℕ) × (m' : Memory) × (unmap_page d start m ≡ some (next, m'))
      × IsRound ds d start next m m'
  unmap_page-IsRound = elim (Bool-cases (present (m.words d (pdx start)))) [
    | inr n ↦
        let (run, r) = absent-IsRound n in (table_down ((start + table_size) % 2 ^ 32), m, run, r)
    | inl y ↦
        let t = page_of (m.words d (pdx start)) in
        let a = pde-IsTable ds [] m d (pdx start) v here (omega arith) y in
        let e = get_pte-there ds [] m d start false v here y in
        elim (Bool-cases (m.words t (ptx start) == 0)) [
          | inl z ↦
              let (run, r) = zero_word-IsRound t a e z in ((start + page_size) % 2 ^ 32, m, run, r)
          | inr z ↦
              let (m', run, r) = removed-IsRound t a e z in
              ((start + page_size) % 2 ^ 32, m', run, r)
        ]
  ]

-- The address of the entry at `l` of the table at `k`, tested against a range.
abbrev pub within : (k l start end : ℕ) → Bool
within k l start end =
    leb start (k * table_size + l * page_size) && ltb (k * table_size + l * page_size) end

-- The addresses from `start` to below `end` have no page in directory `d`; the others are as before.
pub record IsEmptied (ds : List ℕ) (d start end : ℕ) (m m' : Memory) : Type 0 where
  pub paged : IsPaged ds [] m'
  pub gone : (a : ℕ) → start ≤ a → a < end → present (pte_at m'.words d (pdx a) (ptx a)) ≡ false
  pub others :
      (b k l : ℕ)
      → mem b ds ≡ true
      → k < 1024
      → l < 1024
      → (b == d && within k l start end) ≡ false
      → pte_at m'.words b k l ≡ pte_at m.words b k l

-- The first address of a range is in it.
pub not_first :
    (d b k l start end : ℕ)
    → start < end
    → start < 2 ^ 31
    → start % 4096 ≡ 0
    → (b == d && within k l start end) ≡ false
    → (b == d && (k == pdx start && l == ptx start)) ≡ false
not_first d b k l start end h low at n = elim (Bool-cases (k == pdx start && l == ptx start)) [
  | inr o ↦ rw o (ground arith)
  | inl e ↦
      let dir : k ≡ pdx start = ground (arith, e) in
      let entry : l ≡ ptx start = ground (arith, e) in
      let here : k * table_size + l * page_size ≡ start = omega (arith, dir, entry, at) in
      let inside : within k l start end ≡ true = rw here (ground arith) in
      let unequal : (b == d && true) ≡ false = sym (ap (λ x. b == d && x) inside) ∙ n in
      let other : (b == d) ≡ false = ground (arith, unequal) in rw other refl
]

-- The last round.
last-IsEmptied :
    (ds : List ℕ) (d start next end : ℕ) (m m' : Memory)
    → start < end
    → start % 4096 ≡ 0
    → start < 2 ^ 31
    → end ≤ next
    → IsRound ds d start next m m'
    → IsEmptied ds d start end m m'
last-IsEmptied ds d start next end m m' h at low e r = record {
  paged = r.paged;
  gone = λ a i j. r.gone a i (omega arith);
  others = λ b k l mb lk ll n. r.others b k l mb lk (not_first d b k l start end h low at n);
}

next-IsEmptied :
    (ds : List ℕ) (d start next end : ℕ) (m m1 m' : Memory)
    → mem d ds ≡ true
    → start < end
    → start % 4096 ≡ 0
    → start < 2 ^ 31
    → end ≤ 2 ^ 31
    → next % 4096 ≡ 0
    → IsRound ds d start next m m1
    → IsEmptied ds d next end m1 m'
    → IsEmptied ds d start end m m'
next-IsEmptied ds d start next end m m1 m' here h at low top at2 r e = record {
  paged = e.paged;
  gone = λ a i j. elim (Bool-cases (ltb a next)) [
    | inr n ↦ e.gone a (ground arith) j
    | inl y ↦
        ap present (
          e.others d (pdx a) (ptx a) here (omega arith) (omega arith)
            (rw (==_refl d) (before a (ground arith) (omega arith))))
        ∙ r.gone a i (ground arith)
  ];
  others = λ b k l mb lk ll n.
      e.others b k l mb lk ll (later b k l r.later n)
      ∙ r.others b k l mb lk (not_first d b k l start end h low at n);
}
  where
    before : (a : ℕ) → a < next → a < 2 ^ 31 → within (pdx a) (ptx a) next end ≡ false
    before a i lo =
        let address : pdx a * table_size + ptx a * page_size < next = omega arith in ground arith

    later :
        (b k l : ℕ)
        → start + 4096 ≤ next
        → (b == d && within k l start end) ≡ false
        → (b == d && within k l next end) ≡ false
    later b k l i n = elim (Bool-cases (b == d)) [
      | inr o ↦ rw o refl
      | inl o ↦
          let out : within k l start end ≡ false =
            sym (ap (λ x. x && within k l start end) o) ∙ n in
          rw o (ground (arith, out))
    ]

unmap_pages-step :
    (fuel d start end next : ℕ) (m m1 : Memory)
    → unmap_page d start m ≡ some (next, m1)
    → unmap_pages (suc fuel) d start end m ≡ elim (not (next == 0) && ltb next end) [
      | true ↦ unmap_pages fuel d next end m1
      | false ↦ some m1
    ]
unfolding unmap_pages
unmap_pages-step fuel d start end next m m1 run = rw (unmap_pages, run) refl

unmap_pages-IsEmptied :
    (fuel : ℕ) (ds : List ℕ) (d start end : ℕ) (m : Memory)
    → IsPaged ds [] m
    → mem d ds ≡ true
    → start < end
    → end ≤ start + fuel * 4096
    → end ≤ 2 ^ 31
    → start % 4096 ≡ 0
    → (m' : Memory) × (unmap_pages fuel d start end m ≡ some m') × IsEmptied ds d start end m m'
unmap_pages-IsEmptied zero ds d start end m v here h f top at = absurd (omega arith)
unmap_pages-IsEmptied (suc fuel) ds d start end m v here h f top at =
    let (next, m1, run, r) = unmap_page-IsRound ds m d start v here (omega arith) at in
    elim (Bool-cases (not (next == 0) && ltb next end)) [
      | inr stop ↦ (
        m1,
        unmap_pages-step fuel d start end next m m1 run ∙ rw stop refl,
        last-IsEmptied ds d start next end m m1 h at (omega arith)
            (past next (omega (arith, r.later)) stop) r,
      )
      | inl go ↦
          let (m', run2, e) =
            unmap_pages-IsEmptied fuel ds d next end m1 r.paged here (ground (arith, go))
              (omega (arith, r.later)) top r.aligned in
          (
            m',
            unmap_pages-step fuel d start end next m m1 run ∙ rw go run2,
            next-IsEmptied ds d start next end m m1 m' here h at (omega arith) top r.aligned r e,
          )
    ]
  where
    past : (next : ℕ) → 0 < next → (not (next == 0) && ltb next end) ≡ false → end ≤ next
    past next pos stop = ground arith

-- With every reference counted, `unmap_range` of an aligned range of user addresses passes its
-- assertions and returns: the number of its pages is fuel enough. No address of the range has a page
-- afterwards, whether or not there were page tables, the entries of all other addresses and of all
-- other directories are as before, and every reference is counted.
pub unmap_range-IsEmptied :
    (ds : List ℕ) (d start end : ℕ) (m : Memory)
    → IsPaged ds [] m
    → mem d ds ≡ true
    → start % 4096 ≡ 0
    → end % 4096 ≡ 0
    → user_access start end ≡ true
    → (m' : Memory) × (unmap_range d start end m ≡ some m') × IsEmptied ds d start end m m'
unfolding unmap_range
unmap_range-IsEmptied ds d start end m v here at at2 access =
    let order : start < end = ground (arith, access) in
    let top : end ≤ 2 ^ 31 = ground (arith, access) in
    let one : (start % 4096 == 0) ≡ true = ground arith in
    let two : (end % 4096 == 0) ≡ true = ground arith in
    let (m', run, e) =
      unmap_pages-IsEmptied ((end - start) / 4096) ds d start end m v here order (omega arith) top
        at in
    (m', rw (one, two, access) run, e)
