-- ===== src/Paging/Leave.antt =====
-- `exit_range`: all the page tables of a range go back to the allocator.
use mips.Base.{
  ℕ, zero, suc, ◌+◌, ◌-◌, ◌*◌, ◌%◌, ◌/◌, ◌^◌, ◌<◌, ◌≤◌, ◌==◌, ◌≡◌, refl, ap, Bool, true, false,
  List, [], mem, ◌&&◌, arith, not, inl, inr, Bool-cases, ==_refl, ==_ne, sym, ◌∙◌, some, subst, ◌≢◌,
  ltb, leb, one_if,
}
use mips.Vmm.{page_size, user_access}
use mips.Paging.{Memory, present, pdx, table_size, table_down}
use mips.Paging.Range.{exit_table, exit_tables, exit_range}
use mips.Paging.Entry.{page_of}
use mips.Buddy.Blocks.{covers}
use mips.Buddy.Sums.{sum_below, sum_below-change, sum_below-zero}
use mips.Paging.Valid.{IsPaged}
use mips.Paging.Table.{pte_at}
use mips.Paging.Exit.{IsBare, IsExited, exit_table-IsExited}

-- The addresses of the table at `k`, tested against a range.
abbrev pub table_in : (k start end : ℕ) → Bool
table_in k start end = leb start (k * table_size) && ltb (k * table_size) end

-- Whether the page `q` is the page table of directory `d` at `k`, in the range.
abbrev pub is_table_in : (w : ℕ → ℕ → ℕ) (d start end q k : ℕ) → Bool
is_table_in w d start end q k = table_in k start end && present (w d k) && q == page_of (w d k)

-- How many of the page tables of the range stand in the page `q`.
abbrev pub tables_at : (w : ℕ → ℕ → ℕ) (d start end q : ℕ) → ℕ
tables_at w d start end q = sum_below 1024 (λ k. one_if (is_table_in w d start end q k))

-- Directory `d` has no page table for the range; the entries of all other tables are as before.
-- The free blocks hold what they held, and the page tables of the range.
pub record IsLeft (ds : List ℕ) (d start end : ℕ) (m m' : Memory) : Type 0 where
  pub paged : IsPaged ds [] m'
  pub gone : (k : ℕ) → k < 1024 → table_in k start end ≡ true → present (m'.words d k) ≡ false
  pub free : (q : ℕ) → covers m'.phys q ≡ covers m.phys q + tables_at m.words d start end q
  pub dirs :
      (b k : ℕ)
      → mem b ds ≡ true
      → k < 1024
      → (b == d && table_in k start end) ≡ false
      → m'.words b k ≡ m.words b k
  pub others :
      (b k j : ℕ)
      → mem b ds ≡ true
      → k < 1024
      → (b == d && table_in k start end) ≡ false
      → pte_at m'.words b k j ≡ pte_at m.words b k j

exit_tables-step :
    (fuel d start end : ℕ) (m m1 : Memory)
    → exit_table d start m ≡ some m1
    → exit_tables (suc fuel) d start end m
      ≡ elim (not ((start + table_size) % 2 ^ 32 == 0) && ltb ((start + table_size) % 2 ^ 32) end) [
        | true ↦ exit_tables fuel d ((start + table_size) % 2 ^ 32) end m1
        | false ↦ some m1
      ]
unfolding exit_tables
exit_tables-step fuel d start end m m1 run = rw (exit_tables, run) refl

exit_tables-next :
    (fuel d start end : ℕ) (m m1 : Memory)
    → start < 2 ^ 31
    → exit_table d start m ≡ some m1
    → exit_tables (suc fuel) d start end m
      ≡ elim (not (start + table_size == 0) && ltb (start + table_size) end) [
        | true ↦ exit_tables fuel d (start + table_size) end m1
        | false ↦ some m1
      ]
exit_tables-next fuel d start end m m1 low run =
    let next : (start + table_size) % 2 ^ 32 ≡ start + table_size = omega arith in
    subst
      (λ n.
        exit_tables (suc fuel) d start end m
        ≡ elim (not (n == 0) && ltb n end) [ true ↦ exit_tables fuel d n end m1 | false ↦ some m1 ])
      next (exit_tables-step fuel d start end m m1 run)

module _ (ds : List ℕ) (d start end : ℕ) (here : mem d ds ≡ true) (h : start < end)
    (top : end ≤ 2 ^ 31) (at : start % table_size ≡ 0) where
  -- The first table of a range is in it.
  not_this :
      (b k : ℕ)
      → k < 1024
      → (b == d && table_in k start end) ≡ false
      → (b == d && k == pdx start) ≡ false
  not_this b k l n = elim (Bool-cases (k == pdx start)) [
    | inr o ↦ rw o (ground arith)
    | inl e ↦
        let same : k * table_size ≡ start = ground (arith, e) in
        let inside : table_in k start end ≡ true = rw same (ground arith) in
        let unequal : (b == d && true) ≡ false = sym (ap (λ x. b == d && x) inside) ∙ n in
        let other : (b == d) ≡ false = ground (arith, unequal) in rw other refl
  ]

  -- A later table is in the range exactly if it is in the range behind the first table.
  rest_in :
      (k : ℕ)
      → k < 1024
      → (k == pdx start) ≡ false
      → table_in k (start + table_size) end ≡ table_in k start end
  rest_in k l n =
      let ne : k ≢ pdx start = ground (arith, n) in
      elim (Bool-cases (leb start (k * table_size))) [
        | inl low ↦
            let after : start ≤ k * table_size = ground (arith, low) in
            let next : start + table_size ≤ k * table_size = omega (arith, at, ne, after) in
            let up : leb (start + table_size) (k * table_size) ≡ true = ground (arith, next) in
            rw (low, up) refl
        | inr high ↦
            let below : leb (start + table_size) (k * table_size) ≡ false = ground (arith, high) in
            rw (high, below) refl
      ]

  first_in : table_in (pdx start) start end ≡ true
  first_in =
      let address : pdx start * table_size ≡ start = omega (arith, at) in rw address (ground arith)

  first_out : table_in (pdx start) (start + table_size) end ≡ false
  first_out =
      let address : pdx start * table_size ≡ start = omega (arith, at) in rw address (ground arith)

  -- The tables of the range are the first one and those behind it.
  more_tables :
      (m m1 : Memory) (q : ℕ)
      → IsExited ds d (pdx start) m m1
      → tables_at m1.words d (start + table_size) end q
          + one_if (present (m.words d (pdx start)) && q == page_of (m.words d (pdx start)))
        ≡ tables_at m.words d start end q
  more_tables m m1 q r =
      let change =
        sum_below-change 1024 (pdx start) (λ k. one_if (is_table_in m.words d start end q k))
          (λ k. one_if (is_table_in m1.words d (start + table_size) end q k)) (omega arith)
          (λ k l n.
            ap (λ v. one_if (table_in k (start + table_size) end && present v && q == page_of v))
              (r.others d k (rw (==_refl d) n) here)
            ∙ ap (λ b. one_if (b && present (m.words d k) && q == page_of (m.words d k)))
                (rest_in k l n)) in
      omega (
        arith,
        change,
        ap
            (λ b.
              one_if (b && present (m.words d (pdx start)) && q == page_of (m.words d (pdx start))))
            first_in,
        ap
            (λ b.
              one_if
                (b && present (m1.words d (pdx start)) && q == page_of (m1.words d (pdx start))))
            first_out,
      )

  one_table :
      (m : Memory) (q : ℕ)
      → end ≤ start + table_size
      → tables_at m.words d start end q
        ≡ one_if (present (m.words d (pdx start)) && q == page_of (m.words d (pdx start)))
  one_table m q e =
      let change =
        sum_below-change 1024 (pdx start) (λ k. 0)
          (λ k. one_if (is_table_in m.words d start end q k)) (omega arith)
          (λ k l n.
            let behind : table_in k (start + table_size) end ≡ false = ground (arith, e) in
            ap (λ b. one_if (b && present (m.words d k) && q == page_of (m.words d k)))
              (sym (rest_in k l n) ∙ behind)) in
      omega (
        arith,
        change,
        sum_below-zero 1024 (λ k. 0) (λ j h. refl),
        ap
            (λ b.
              one_if (b && present (m.words d (pdx start)) && q == page_of (m.words d (pdx start))))
            first_in,
      )

  last-IsLeft :
      (m m1 : Memory)
      → end ≤ start + table_size
      → IsExited ds d (pdx start) m m1
      → IsLeft ds d start end m m1
  last-IsLeft m m1 e r = record {
    paged = r.paged;
    gone = λ k l i.
        let low : start ≤ k * table_size = ground (arith, i) in
        let high : k * table_size < end = ground (arith, i) in
        let same : k ≡ pdx start = omega (arith, at) in rw same r.gone;
    free = λ q. r.free q ∙ ap (λ n. covers m.phys q + n) (sym (one_table m q e));
    dirs = λ b k mb l n. r.others b k (not_this b k l n) mb;
    others = λ b k j mb l n. r.entries b k j mb l (not_this b k l n);
  }

  next-IsLeft :
      (m m1 m' : Memory)
      → IsExited ds d (pdx start) m m1
      → IsLeft ds d (start + table_size) end m1 m'
      → IsLeft ds d start end m m'
  next-IsLeft m m1 m' r e = record {
    paged = e.paged;
    gone = λ k l i. elim (Bool-cases (k == pdx start)) [
      | inl y ↦
          let same : k ≡ pdx start = ground (arith, y) in
          ap present (e.dirs d k here l (rw (==_refl d) (before k l same))) ∙ rw same r.gone
      | inr n ↦ e.gone k l (after k l i n)
    ];
    free = λ q. omega (arith, e.free q, r.free q, more_tables m m1 q r);
    dirs = λ b k mb l n. e.dirs b k mb l (outside b k l n) ∙ r.others b k (not_this b k l n) mb;
    others = λ b k j mb l n.
        e.others b k j mb l (outside b k l n) ∙ r.entries b k j mb l (not_this b k l n);
  }
    where
      before : (k : ℕ) → k < 1024 → k ≡ pdx start → table_in k (start + table_size) end ≡ false
      before k l e = let address : k * table_size ≡ start = omega (arith, at) in ground arith

      after :
          (k : ℕ)
          → k < 1024
          → table_in k start end ≡ true
          → (k == pdx start) ≡ false
          → table_in k (start + table_size) end ≡ true
      after k l i n =
          let low : start ≤ k * table_size = ground (arith, i) in
          let high : k * table_size < end = ground (arith, i) in
          let ne : k ≢ pdx start = ground (arith, n) in
          let next : start + table_size ≤ k * table_size = omega (arith, at) in ground arith

      outside :
          (b k : ℕ)
          → k < 1024
          → (b == d && table_in k start end) ≡ false
          → (b == d && table_in k (start + table_size) end) ≡ false
      outside b k l n = elim (Bool-cases (b == d)) [
        | inr o ↦ rw o refl
        | inl o ↦
            let out : table_in k start end ≡ false =
              sym (ap (λ x. x && table_in k start end) o) ∙ n in
            rw o (ground (arith, out))
      ]

pub exit_tables-IsLeft :
    (fuel : ℕ) (ds : List ℕ) (d start end : ℕ) (m : Memory)
    → IsPaged ds [] m
    → mem d ds ≡ true
    → start < end
    → end ≤ start + fuel * table_size
    → end ≤ 2 ^ 31
    → start % table_size ≡ 0
    → ((k : ℕ) → k < 1024 → table_in k start end ≡ true → IsBare m.words d k)
    → (m' : Memory) × (exit_tables fuel d start end m ≡ some m') × IsLeft ds d start end m m'
exit_tables-IsLeft zero ds d start end m v here h f top at bare = absurd (omega arith)
exit_tables-IsLeft (suc fuel) ds d start end m v here h f top at bare =
    let first : table_in (pdx start) start end ≡ true = first_in ds d start end here h top at in
    let (m1, run, r) =
      exit_table-IsExited ds m d start v here (bare (pdx start) (omega arith) first) in
    elim (Bool-cases (not (start + table_size == 0) && ltb (start + table_size) end)) [
      | inr stop ↦ (
        m1,
        exit_tables-next fuel d start end m m1 (omega arith) run ∙ rw stop refl,
        last-IsLeft ds d start end here h top at m m1 (ground arith) r,
      )
      | inl go ↦
          let (m', run2, e) =
            exit_tables-IsLeft fuel ds d (start + table_size) end m1 r.paged here (ground arith)
              (omega arith) top (omega (arith, at))
              (λ k l i j lj.
                let (n, inside) = still k l i in
                ap present (r.entries d k j here l (rw (==_refl d) n)) ∙ bare k l inside j lj) in
          (
            m',
            exit_tables-next fuel d start end m m1 (omega arith) run ∙ rw go run2,
            next-IsLeft ds d start end here h top at m m1 m' r e,
          )
    ]
  where
    still :
        (k : ℕ)
        → k < 1024
        → table_in k (start + table_size) end ≡ true
        → ((k == pdx start) ≡ false) × (table_in k start end ≡ true)
    still k l i =
        let low : start + table_size ≤ k * table_size = ground (arith, i) in
        let high : k * table_size < end = ground (arith, i) in
        let ne : k ≢ pdx start = λ e. absurd (omega (arith, at, e)) in
        (==_ne k (pdx start) ne, ground arith)

-- With every reference counted, `exit_range` of an aligned range of user addresses passes its
-- assertions and returns when no page table that begins between the start of the first one and the
-- end of the range names a page any more. All these tables are out of the directory and in free
-- blocks, which hold nothing else that they did not hold before; the entries of all other tables
-- and of all other directories are as before, and every reference is counted.
pub exit_range-IsLeft :
    (ds : List ℕ) (d start end : ℕ) (m : Memory)
    → IsPaged ds [] m
    → mem d ds ≡ true
    → start % page_size ≡ 0
    → end % page_size ≡ 0
    → user_access start end ≡ true
    → ((k : ℕ) → k < 1024 → table_in k (table_down start) end ≡ true → IsBare m.words d k)
    → (m' : Memory) × (exit_range d start end m ≡ some m') × IsLeft ds d (table_down start) end m m'
unfolding exit_range
exit_range-IsLeft ds d start end m v here at at2 access bare =
    let order : start < end = ground (arith, access) in
    let top : end ≤ 2 ^ 31 = ground (arith, access) in
    let one : (start % 4096 == 0) ≡ true = ground arith in
    let two : (end % 4096 == 0) ≡ true = ground arith in
    let (m', run, e) =
      exit_tables-IsLeft ((end - start) / table_size + 2) ds d (table_down start) end m v here
        (omega arith) (omega arith) top (omega arith) bare in
    (m', rw (one, two, access) run, e)
