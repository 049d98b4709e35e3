-- ===== src/Paging/Uses.antt =====
-- How often the page tables of some directories name a page: what its reference count counts.
use mips.Base.{
  ℕ, ◌+◌, ◌*◌, ◌<◌, ◌≤◌, ◌==◌, ◌≡◌, refl, ap, Bool, true, false, List, length, mem, count, ◌&&◌,
  one_if, if◌then◌else◌, arith, inl, inr, Bool-cases, ==_refl, sym, ◌∙◌,
}
use mips.Buddy.Sums.{sum_below, sum_below-same, sum_below-change, sum_below-le, sum_below-zero}
use mips.Paging.{present}
use mips.Paging.Entry.{page_of, present_iff}
use mips.Paging.Grid.{grid, grid-same, grid-change, grid-le}

abbrev pub Words : Type 0
Words = ℕ → ℕ → ℕ

-- An entry of a page table, a page table, and an entry of a directory with its table.
unfoldable pub leaf_uses : (pte q : ℕ) → ℕ
leaf_uses pte q = one_if (present pte && page_of pte == q)

unfoldable pub table_uses : Words → (t q : ℕ) → ℕ
table_uses w t q = sum_below 1024 (λ j. leaf_uses (w t j) q)

unfoldable pub pde_uses : Words → (pde q : ℕ) → ℕ
pde_uses w pde q =
    if present pde then one_if (page_of pde == q) + table_uses w (page_of pde) q else 0

unfoldable pub uses : Words → List ℕ → ℕ → ℕ
uses w ds q = grid ds (λ d i. pde_uses w (w d i) q)

abbrev pub put : (t j v : ℕ) → Words → Words
put t j v w q i = if q == t && i == j then v else w q i

leaf_uses-le : (pte q : ℕ) → leaf_uses pte q ≤ 1
unfolding leaf_uses
leaf_uses-le pte q = ground arith

pde_uses-le : (w : Words) (pde q : ℕ) → pde_uses w pde q ≤ 1025
unfolding pde_uses table_uses
pde_uses-le w pde q =
    let t = page_of pde in
    let rest = sum_below-le 1024 1 (λ j. leaf_uses (w t j) q) (λ j. leaf_uses-le (w t j) q) in
    elim (Bool-cases (present pde)) [
      | inr absent ↦ rw absent (omega arith)
      | inl here ↦ rw here (omega (arith, rest, one (t == q)))
    ]
  where
    one : (b : Bool) → one_if b ≤ 1
    one b = ground arith

pub uses-le : (w : Words) (ds : List ℕ) (q : ℕ) → uses w ds q ≤ length ds * (1024 * 1025)
unfolding uses
uses-le w ds q = grid-le ds 1025 (λ d i. pde_uses w (w d i) q) (λ d i. pde_uses-le w (w d i) q)

-- A word of a table is written.
table_uses-put :
    (w : Words) (t j v q : ℕ)
    → j < 1024
    → table_uses (put t j v w) t q + leaf_uses (w t j) q ≡ table_uses w t q + leaf_uses v q
unfolding table_uses
table_uses-put w t j v q h =
    let change =
      sum_below-change 1024 j (λ k. leaf_uses (w t k) q) (λ k. leaf_uses (put t j v w t k) q) h
        (λ k l e. rw (==_refl t, e) refl) in
    let here : put t j v w t j ≡ v = rw (==_refl t, ==_refl j) refl in
    change ∙ ap (λ x. table_uses w t q + leaf_uses x q) here

-- Words of other pages are written.
abbrev pub IsKept : (t : ℕ) (w u : Words) → Type 0
IsKept t w u = (j : ℕ) → u t j ≡ w t j

table_uses-IsKept : (w u : Words) (t q : ℕ) → IsKept t w u → table_uses u t q ≡ table_uses w t q
unfolding table_uses
table_uses-IsKept w u t q e =
    sum_below-same 1024 (λ j. leaf_uses (w t j) q) (λ j. leaf_uses (u t j) q) (λ j h. rw (e j) refl)

pub pde_uses-IsKept :
    (w u : Words) (pde q : ℕ)
    → (present pde ≡ true → IsKept (page_of pde) w u)
    → pde_uses u pde q ≡ pde_uses w pde q
unfolding pde_uses
pde_uses-IsKept w u pde q e = elim (Bool-cases (present pde)) [
  | inr absent ↦ rw absent refl
  | inl here ↦ rw (here, table_uses-IsKept w u (page_of pde) q (e here)) refl
]

-- The entry of directory `d` at `i` is the only one that names the page table `t`.
pub record IsTable (w : Words) (ds : List ℕ) (d i t : ℕ) : Type 0 where
  pub once : count d ds ≡ 1
  pub small : i < 1024
  pub there : present (w d i) ≡ true
  pub at : page_of (w d i) ≡ t
  pub only :
      (b k : ℕ)
      → mem b ds ≡ true
      → k < 1024
      → present (w b k) ≡ true
      → page_of (w b k) ≡ t
      → (b == d && k == i) ≡ true
  pub out : mem t ds ≡ false

pub ne_of_mem : (b t : ℕ) (ds : List ℕ) → mem b ds ≡ true → mem t ds ≡ false → (b == t) ≡ false
ne_of_mem b t ds m o = elim (Bool-cases (b == t)) [
  | inr n ↦ n
  | inl n ↦ let same : b ≡ t = ground arith in absurd (cc)
]

-- The directories keep their words.
pub IsTable-same :
    (w u : Words) (ds : List ℕ) (d i t : ℕ)
    → ((b k : ℕ) → mem b ds ≡ true → u b k ≡ w b k)
    → mem d ds ≡ true
    → IsTable w ds d i t
    → IsTable u ds d i t
IsTable-same w u ds d i t e here a = record {
  once = a.once;
  small = a.small;
  there = ap present (e d i here) ∙ a.there;
  at = ap page_of (e d i here) ∙ a.at;
  only = λ b k mb lk y p.
      a.only b k mb lk (sym (ap present (e b k mb)) ∙ y) (sym (ap page_of (e b k mb)) ∙ p);
  out = a.out;
}

-- A table that is not `t` keeps its words.
pub kept_ne : (w : Words) (t j v b : ℕ) → (b == t) ≡ false → IsKept b w (put t j v w)
kept_ne w t j v b n k = rw n refl

-- Of the other entries of directories, none names the table.
pub others :
    (w : Words) (ds : List ℕ) (d i t b k : ℕ)
    → IsTable w ds d i t
    → mem b ds ≡ true
    → k < 1024
    → (b == d && k == i) ≡ false
    → present (w b k) ≡ true
    → (page_of (w b k) == t) ≡ false
others w ds d i t b k a m l n p = elim (Bool-cases (page_of (w b k) == t)) [
  | inr e ↦ e
  | inl e ↦
      let same : page_of (w b k) ≡ t = ground arith in
      let twice = a.only b k m l p same in absurd (cc)
]

pub pde_uses-table :
    (w : Words) (pde t q : ℕ)
    → present pde ≡ true
    → page_of pde ≡ t
    → pde_uses w pde q ≡ one_if (t == q) + table_uses w t q
unfolding pde_uses
pde_uses-table w pde t q p e = rw (p, e) refl

pub uses-put_leaf :
    (w : Words) (ds : List ℕ) (d i t j v q : ℕ)
    → IsTable w ds d i t
    → j < 1024
    → mem d ds ≡ true
    → uses (put t j v w) ds q + leaf_uses (w t j) q ≡ uses w ds q + leaf_uses v q
unfolding uses
uses-put_leaf w ds d i t j v q a h here =
    let u = put t j v w in
    let keep : (b k : ℕ) → mem b ds ≡ true → u b k ≡ w b k =
      λ b k m. rw (ne_of_mem b t ds m a.out) refl in
    let change =
      grid-change ds d i (λ b k. pde_uses w (w b k) q) (λ b k. pde_uses u (u b k) q) a.once a.small
        (λ b k m l n.
          ap (λ x. pde_uses u x q) (keep b k m)
          ∙ pde_uses-IsKept w u (w b k) q
              (λ p. kept_ne w t j v (page_of (w b k)) (others w ds d i t b k a m l n p))) in
    omega (
      arith,
      change,
      table_uses-put w t j v q h,
      pde_uses-table w (w d i) t q a.there a.at,
      ap (λ x. pde_uses u x q) (keep d i here) ∙ pde_uses-table u (w d i) t q a.there a.at,
    )

-- An entry of a directory is written, where there was none: an empty table.
pub uses-put_table :
    (w : Words) (ds : List ℕ) (d i t v q : ℕ)
    → count d ds ≡ 1
    → i < 1024
    → present (w d i) ≡ false
    → ((b k : ℕ)
        → mem b ds ≡ true
        → k < 1024
        → present (w b k) ≡ true
        → (page_of (w b k) == d) ≡ false)
    → present v ≡ true
    → page_of v ≡ t
    → (t == d) ≡ false
    → ((j : ℕ) → w t j ≡ 0)
    → uses (put d i v w) ds q ≡ uses w ds q + one_if (t == q)
unfolding uses pde_uses table_uses leaf_uses
uses-put_table w ds d i t v q c h absent apart p e n zeros =
    let u = put d i v w in
    let change =
      grid-change ds d i (λ b k. pde_uses w (w b k) q) (λ b k. pde_uses u (u b k) q) c h
        (λ b k m l o.
          ap (λ x. pde_uses u x q) (rw o refl)
          ∙ pde_uses-IsKept w u (w b k) q
              (λ y. kept_ne w d i v (page_of (w b k)) (apart b k m l y))) in
    omega (
      arith,
      change,
      before,
      ap (λ x. pde_uses u x q) written ∙ pde_uses-table u v t q p e,
      table_uses-IsKept w u t q (kept_ne w d i v t n),
      empty,
    )
  where
    written : put d i v w d i ≡ v
    written = rw (==_refl d, ==_refl i) refl

    before : pde_uses w (w d i) q ≡ 0
    before = rw (pde_uses, absent) refl

    absent_zero : present 0 ≡ false
    absent_zero = present_iff 0

    empty : table_uses w t q ≡ 0
    empty =
        sum_below-zero 1024 (λ j. leaf_uses (w t j) q)
          (λ j l. rw (leaf_uses, zeros j, absent_zero) refl)

-- The words of a page that is no table and no directory are written.
pub uses-IsKept :
    (w u : Words) (ds : List ℕ) (q : ℕ)
    → ((d : ℕ) → mem d ds ≡ true → IsKept d w u)
    → ((d i : ℕ)
        → mem d ds ≡ true
        → i < 1024
        → present (w d i) ≡ true
        → IsKept (page_of (w d i)) w u)
    → uses u ds q ≡ uses w ds q
unfolding uses
uses-IsKept w u ds q dirs tables =
    grid-same ds (λ d i. pde_uses w (w d i) q) (λ d i. pde_uses u (u d i) q)
      (λ d i m l.
        ap (λ x. pde_uses u x q) (dirs d m i) ∙ pde_uses-IsKept w u (w d i) q (tables d i m l))

-- Without entries no page is used.
pub uses-none :
    (w : Words) (ds : List ℕ) (q : ℕ) → ((d i : ℕ) → present (w d i) ≡ false) → uses w ds q ≡ 0
unfolding uses pde_uses
uses-none w ds q n =
    let bound = grid-le ds 0 (λ d i. pde_uses w (w d i) q) (λ d i. rw (n d i) (omega arith)) in
    omega (arith, bound, times (length ds))
  where
    times : (k : ℕ) → k * (1024 * 0) ≡ 0
    times k = omega arith
