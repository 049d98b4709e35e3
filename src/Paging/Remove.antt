-- ===== src/Paging/Remove.antt =====
-- `page_remove_pte`: an entry is cleared, and its page loses a reference.
use mips.Base.{
  ℕ, ◌+◌, ◌<◌, ◌≤◌, ◌==◌, ◌≡◌, refl, ap, true, false, List, ◌∷◌, length, mem, count, ◌&&◌, one_if,
  if◌then◌else◌, arith, inl, inr, Bool-cases, ==_refl, sym, ◌∙◌, some, subst,
}
use mips.Buddy.Blocks.{covers}
use mips.Buddy.Frame.{IsFramed}
use mips.Paging.{Memory, present, page_ref, store, pte2page, drop_page, page_remove_pte}
use mips.Paging.Entry.{page_of, present_iff}
use mips.Paging.Uses.{Words, IsTable, leaf_uses, put, ne_of_mem, others, kept_ne}
use mips.Paging.Valid.{IsPaged, IsPaged-write, leaf-le_uses}
use mips.Paging.Drop.{IsDropped-IsPaged, drop_page-IsDropped, drop_page-words}
use mips.Paging.Table.{pte_at}
use mips.Paging.Walk.{pa2page-some}

-- Of the entries of the directories one is written.
abbrev pub IsWritten : (ds : List ℕ) (d i j v : ℕ) → (w u : Words) → Type 0
IsWritten ds d i j v w u =
    (b k l : ℕ)
    → mem b ds ≡ true
    → k < 1024
    → pte_at u b k l ≡ (if b == d && (k == i && l == j) then v else pte_at w b k l)

pub put-IsWritten :
    (ds : List ℕ) (w : Words) (d i t j v : ℕ)
    → IsTable w ds d i t
    → IsWritten ds d i j v w (put t j v w)
unfolding pte_at
put-IsWritten ds w d i t j v a b k l mb lk = elim (Bool-cases (b == d && k == i)) [
  | inl e ↦
      let b_d : b ≡ d = ground (arith, e) in
      let k_i : k ≡ i = ground (arith, e) in
      let m : mem d ds ≡ true = subst (λ x. mem x ds ≡ true) b_d mb in
      rw (b_d, k_i, keep d i m, a.there, a.at, ==_refl d, ==_refl i, ==_refl t) refl
  | inr n ↦
      let out : (b == d && (k == i && l == j)) ≡ false = ground (arith, n) in
      rw out (elim (Bool-cases (present (w b k))) [
        | inr absent ↦ rw (keep b k mb, absent) refl
        | inl y ↦
            rw (keep b k mb, y)
              (kept_ne w t j v (page_of (w b k)) (others w ds d i t b k a mb lk n y) l)
      ])
]
  where
    keep : (c e : ℕ) → mem c ds ≡ true → put t j v w c e ≡ w c e
    keep c e m = rw (ne_of_mem c t ds m a.out) refl

pub pte_at-table :
    (w : Words) (ds : List ℕ) (d i t j : ℕ) → IsTable w ds d i t → pte_at w d i j ≡ w t j
unfolding pte_at
pte_at-table w ds d i t j a = rw (a.there, a.at) refl

-- The entry at `j` of the table `t`, which is that of directory `d` at `i`, has been cleared.
pub record IsRemoved (ds h : List ℕ) (t j : ℕ) (m m' : Memory) : Type 0 where
  pub paged : IsPaged ds h m'
  pub words : m'.words ≡ (if present (m.words t j) then put t j 0 m.words else m.words)
  pub refs : (q : ℕ) → page_ref q m' + leaf_uses (m.words t j) q ≡ page_ref q m
  pub freed :
      (q : ℕ)
      → covers m'.phys q
        ≡ covers m.phys q + (if page_ref q m' == 0 then leaf_uses (m.words t j) q else 0)
  pub frame : IsFramed m.phys m'.phys
  pub bound : m'.phys.npage ≡ m.phys.npage

pub leaf_uses-absent : (w q : ℕ) → present w ≡ false → leaf_uses w q ≡ 0
unfolding leaf_uses
leaf_uses-absent w q n = rw n refl

pub leaf_uses-there : (w q : ℕ) → present w ≡ true → leaf_uses w q ≡ one_if (page_of w == q)
unfolding leaf_uses
leaf_uses-there w q y = rw y refl

pub leaf_uses-page : (w q : ℕ) → present w ≡ true → leaf_uses w q ≡ one_if (q == page_of w)
leaf_uses-page w q y = leaf_uses-there w q y ∙ ground arith

pub absent_zero : present 0 ≡ false
absent_zero = present_iff 0

absent-IsRemoved :
    (ds h : List ℕ) (m : Memory) (t j : ℕ)
    → IsPaged ds h m
    → present (m.words t j) ≡ false
    → IsRemoved ds h t j m m
absent-IsRemoved ds h m t j v n =
    let unused = λ (q : ℕ). leaf_uses-absent (m.words t j) q n in
    record {
      paged = v;
      words = rw n refl;
      refs = λ q. omega (arith, unused q);
      freed = λ q. rw (unused q) (ground arith);
      frame = record { bases = refl; zones = λ q. refl; reserves = λ q. refl };
      bound = refl;
    }

-- The page of an entry has a reference.
pub leaf-used :
    (ds h : List ℕ) (m : Memory) (d i t j q : ℕ)
    → IsPaged ds h m
    → mem d ds ≡ true
    → IsTable m.words ds d i t
    → j < 1024
    → leaf_uses (m.words t j) q ≤ page_ref q m
leaf-used ds h m d i t j q v here a l =
    omega (arith, v.counted q, leaf-le_uses m.words ds d i t j q here a l)

-- The entry is cleared, and its reference held.
pub cleared-IsPaged :
    (ds h : List ℕ) (m : Memory) (d i t j : ℕ)
    → IsPaged ds h m
    → mem d ds ≡ true
    → IsTable m.words ds d i t
    → j < 1024
    → present (m.words t j) ≡ true
    → IsPaged ds (page_of (m.words t j) ∷ h) (store (t, j) 0 m)
unfolding count
cleared-IsPaged ds h m d i t j v here a l y =
    IsPaged-write ds h (page_of (m.words t j) ∷ h) m d i t j 0 v here a l
      (λ q. omega (arith, leaf_uses-absent 0 q absent_zero, leaf_uses-page (m.words t j) q y))

there-IsRemoved :
    (ds h : List ℕ) (m : Memory) (d i t j : ℕ)
    → IsPaged ds h m
    → mem d ds ≡ true
    → IsTable m.words ds d i t
    → j < 1024
    → length h < 9
    → present (m.words t j) ≡ true
    → (m' : Memory) × (drop_page (page_of (m.words t j)) m ≡ some m')
      × IsRemoved ds h t j m (store (t, j) 0 m')
unfolding count
there-IsRemoved ds h m d i t j v here a l few y =
    let page = page_of (m.words t j) in
    let m0 = store (t, j) 0 m in
    let v0 = cleared-IsPaged ds h m d i t j v here a l y in
    let (m1, run, dr) = drop_page-IsDropped ds h m0 page v0 few in
    let (run', words) = drop_page-words page m m1 m0.words run in
    let same : m1 ≡ store (t, j) 0 (record m1 { words = m.words }) =
      ap (λ (w : Words). record m1 { words = w }) words in
    (
      record m1 { words = m.words },
      run',
      record {
        paged = subst (IsPaged ds h) same (IsDropped-IsPaged ds h m0 m1 page v0 dr);
        words = rw y refl;
        refs = λ q. omega (arith, dr.refs q, leaf_uses-page (m.words t j) q y);
        freed = λ q. dr.cover q ∙ freed q (page_ref q m1) (dr.refs q);
        frame = dr.frame;
        bound = dr.bound;
      },
    )
  where
    freed :
        (q r : ℕ)
        → r + one_if (q == page_of (m.words t j)) ≡ page_ref q m
        → covers m.phys q
            + one_if (q == page_of (m.words t j) && page_ref (page_of (m.words t j)) m == 1)
          ≡ covers m.phys q + (if r == 0 then leaf_uses (m.words t j) q else 0)
    freed q r e = elim (Bool-cases (q == page_of (m.words t j))) [
      | inr n ↦
          let unused : leaf_uses (m.words t j) q ≡ 0 =
            leaf_uses-page (m.words t j) q y ∙ ap one_if n in
          rw (n, unused) (ground arith)
      | inl s ↦
          let used : leaf_uses (m.words t j) q ≡ 1 =
            leaf_uses-page (m.words t j) q y ∙ ap one_if s in
          let same : q ≡ page_of (m.words t j) = ground (arith, s) in
          let up : page_ref (page_of (m.words t j)) m ≡ r + 1 =
            ap (λ x. page_ref x m) (sym same) ∙ sym e ∙ ap (λ n. r + n) (ap one_if s) in
          rw (s, used, up) (ground arith)
    ]

remove_run-absent :
    (m : Memory) (t j : ℕ) → present (m.words t j) ≡ false → page_remove_pte (t, j) m ≡ some m
unfolding page_remove_pte
remove_run-absent m t j n = rw (page_remove_pte, n) refl

remove_run-there :
    (m m1 : Memory) (t j : ℕ)
    → present (m.words t j) ≡ true
    → pte2page (m.words t j) m ≡ some (page_of (m.words t j))
    → drop_page (page_of (m.words t j)) m ≡ some m1
    → page_remove_pte (t, j) m ≡ some (store (t, j) 0 m1)
unfolding page_remove_pte
remove_run-there m m1 t j y e run = rw (page_remove_pte, y, e, run) refl

-- `page_remove_pte` at an entry of the page tables.
pub page_remove_pte-IsRemoved :
    (ds h : List ℕ) (m : Memory) (d i t j : ℕ)
    → IsPaged ds h m
    → mem d ds ≡ true
    → IsTable m.words ds d i t
    → j < 1024
    → length h < 9
    → (m' : Memory) × (page_remove_pte (t, j) m ≡ some m') × IsRemoved ds h t j m m'
unfolding pte2page
page_remove_pte-IsRemoved ds h m d i t j v here a l few =
    elim (Bool-cases (present (m.words t j))) [
      | inr n ↦ (m, remove_run-absent m t j n, absent-IsRemoved ds h m t j v n)
      | inl y ↦
          let page = page_of (m.words t j) in
          let used : leaf_uses (m.words t j) page ≡ 1 =
            leaf_uses-there (m.words t j) page y ∙ ap one_if (==_refl page) in
          let inside : page < m.phys.npage =
            (v.usable page
              (omega (arith, used, leaf-used ds h m d i t j page v here a l))).inside in
          let named : pte2page (m.words t j) m ≡ some page =
            rw y (pa2page-some (m.words t j) m inside) in
          let (m1, run, r) = there-IsRemoved ds h m d i t j v here a l few y in
          (store (t, j) 0 m1, remove_run-there m m1 t j y named run, r)
    ]
