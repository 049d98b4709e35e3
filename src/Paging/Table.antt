-- ===== src/Paging/Table.antt =====
-- A new page table: the page that `get_pte` asks for and enters into the directory.
use mips.Base.{
  ℕ, ◌+◌, ◌<◌, ◌==◌, ◌≡◌, refl, ap, true, false, List, ◌∷◌, mem, count, ◌&&◌, one_if, if◌then◌else◌,
  arith, inl, inr, ◌⊎◌, Bool-cases, ==_refl, sym, ◌∙◌,
}
use mips.Buddy.{Buddy}
use mips.Buddy.Single.{IsGiven}
use mips.Paging.{Memory, present, page_ref, clear_page, store}
use mips.Paging.Entry.{page_of}
use mips.Paging.Uses.{Words, uses, ne_of_mem, IsKept, uses-IsKept, uses-put_table}
use mips.Paging.Valid.{IsPaged, IsUsable-framed}
use mips.Paging.Hold.{IsMappable}

-- The entry at `j` of the table that the entry of directory `d` at `i` names; 0 without a table.
unfoldable pub pte_at : Words → (d i j : ℕ) → ℕ
pte_at w d i j = if present (w d i) then w (page_of (w d i)) j else 0

module _ (ds h : List ℕ) (m : Memory) (p : ℕ) (s : Buddy) where
  -- A page that the allocator gives.
  pub given-IsPaged : IsPaged ds h m → IsGiven p m.phys s → IsPaged ds h (record m { phys = s })
  given-IsPaged v g = record {
    buddy = g.buddy;
    few = v.few;
    small = rw g.kept.1 v.small;
    dirs = λ d here.
        let (once, out, none_there) = v.dirs d here in
        (once, omega (arith, g.cover d, out), g.kept.0 d ∙ none_there);
    counted = λ q. g.kept.0 q ∙ v.counted q;
    alone = λ d i here l there. g.kept.0 (page_of (m.words d i)) ∙ v.alone d i here l there;
    usable = λ q pos.
        IsUsable-framed q m.phys s g.frame g.kept.1 (v.usable q (omega (arith, g.kept.0 q)));
    quiet = λ q c.
        let (none_there, inside) = v.quiet q (omega (arith, g.cover q)) in
        (g.kept.0 q ∙ none_there, rw g.kept.1 inside);
  }

  pub given-IsMappable :
      IsPaged ds h m → IsGiven p m.phys s → IsMappable ds (record m { phys = s }) p
  given-IsMappable v g =
      let free = v.quiet p (omega (arith, g.was_free)) in
      record {
        taken = omega (arith, g.cover p, g.was_free, ap one_if (==_refl p));
        usable = record {
          inside = rw g.kept.1 free.1;
          clean = g.frame.reserves p ∙ v.buddy.usable p (omega (arith, g.was_free));
          above = g.above;
        };
        no_dir = elim (Bool-cases (mem p ds)) [
          | inr n ↦ n
          | inl here ↦ absurd (omega (arith, (v.dirs p here).1, g.was_free))
        ];
        no_table = λ d i here l there. elim (Bool-cases (page_of (m.words d i) == p)) [
          | inr n ↦ n
          | inl e ↦
              let same : page_of (m.words d i) ≡ p = ground arith in
              absurd (omega (arith, v.alone d i here l there, ap (λ q. page_ref q m) same, free.0))
        ];
      }

  -- What an entry may name beside it.
  pub given-IsMappable_other :
      (q : ℕ) → IsGiven p m.phys s → IsMappable ds m q → IsMappable ds (record m { phys = s }) q
  given-IsMappable_other q g o = record {
    taken = omega (arith, g.cover q, o.taken);
    usable = IsUsable-framed q m.phys s g.frame g.kept.1 o.usable;
    no_dir = o.no_dir;
    no_table = o.no_table;
  }

-- The page `p` becomes a table of the directory, with the entry `v` at `i`.
abbrev pub tabled : (d i p v : ℕ) → Memory → Memory
tabled d i p v m = store (d, i) v (clear_page p m)

module _ (ds h : List ℕ) (m : Memory) (d i p v : ℕ) (a : IsPaged ds (p ∷ h) m)
    (one : page_ref p m ≡ 1) (u : IsMappable ds m p) (here : mem d ds ≡ true) (l : i < 1024)
    (absent : present (m.words d i) ≡ false) (there : present v ≡ true) (at : page_of v ≡ p) where
  no_dir_table :
      (b k : ℕ)
      → mem b ds ≡ true
      → k < 1024
      → present (m.words b k) ≡ true
      → (page_of (m.words b k) == d) ≡ false
  no_dir_table b k mb lk y = elim (Bool-cases (page_of (m.words b k) == d)) [
    | inr n ↦ n
    | inl e ↦
        let same : page_of (m.words b k) ≡ d = ground arith in
        absurd (omega (arith, a.alone b k mb lk y, ap (λ q. page_ref q m) same, (a.dirs d here).2))
  ]

  pub dir-clear : (b k : ℕ) → mem b ds ≡ true → (clear_page p m).words b k ≡ m.words b k
  unfolding clear_page
  dir-clear b k mb = rw (ne_of_mem b p ds mb u.no_dir) refl

  cleared : (j : ℕ) → (clear_page p m).words p j ≡ 0
  unfolding clear_page
  cleared j = rw (==_refl p) refl

  dir_ne : (q : ℕ) → q ≡ p → (q == d) ≡ false
  dir_ne q e = elim (Bool-cases (q == d)) [
    | inr n ↦ n
    | inl y ↦
        let same : d ≡ p = ground (arith, e) in
        absurd (omega (arith, one, (a.dirs d here).2, ap (λ x. page_ref x m) same))
  ]

  table_clear : (t : ℕ) → (t == p) ≡ false → IsKept t m.words (clear_page p m).words
  unfolding clear_page
  table_clear t n j = rw n refl

  uses-tabled : (q : ℕ) → uses (tabled d i p v m).words ds q ≡ uses m.words ds q + one_if (p == q)
  uses-tabled q =
      uses-put_table (clear_page p m).words ds d i p v q (a.dirs d here).0 l
        (ap present (dir-clear d i here) ∙ absent)
        (λ b k mb lk y.
          ap (λ w. page_of w == d) (dir-clear b k mb)
          ∙ no_dir_table b k mb lk (sym (ap present (dir-clear b k mb)) ∙ y))
        there at (dir_ne p refl) cleared
      ∙ ap (λ n. n + one_if (p == q))
          (uses-IsKept m.words (clear_page p m).words ds q (λ b mb k. dir-clear b k mb)
            (λ b k mb lk y. table_clear (page_of (m.words b k)) (u.no_table b k mb lk y)))

  pub tabled-IsPaged : IsPaged ds h (tabled d i p v m)
  unfolding count clear_page
  tabled-IsPaged = record {
    buddy = a.buddy;
    few = a.few;
    small = a.small;
    dirs = a.dirs;
    counted = λ q. omega (arith, a.counted q, uses-tabled q, swap q);
    alone = λ b k mb lk y. alone b k mb lk y (Bool-cases (b == d && k == i));
    usable = a.usable;
    quiet = a.quiet;
  }
    where
      swap : (q : ℕ) → one_if (p == q) ≡ one_if (q == p)
      swap q = ground arith

      alone :
          (b k : ℕ)
          → mem b ds ≡ true
          → k < 1024
          → present ((tabled d i p v m).words b k) ≡ true
          → ((b == d && k == i) ≡ true) ⊎ ((b == d && k == i) ≡ false)
          → page_ref (page_of ((tabled d i p v m).words b k)) m ≡ 1
      alone b k mb lk y (inl e) =
          let new : (tabled d i p v m).words b k ≡ v = rw e refl in
          ap (λ w. page_ref (page_of w) m) new ∙ ap (λ q. page_ref q m) at ∙ one
      alone b k mb lk y (inr n) =
          let old : (tabled d i p v m).words b k ≡ m.words b k = rw n (dir-clear b k mb) in
          ap (λ w. page_ref (page_of w) m) old ∙ a.alone b k mb lk (sym (ap present old) ∙ y)

  pub tabled-pte_at :
      (b k j : ℕ)
      → mem b ds ≡ true
      → k < 1024
      → pte_at (tabled d i p v m).words b k j ≡ pte_at m.words b k j
  unfolding pte_at
  tabled-pte_at b k j mb lk = elim (Bool-cases (b == d && k == i)) [
    | inl e ↦
        let new : (tabled d i p v m).words b k ≡ v = rw e refl in
        let b_d : b ≡ d = ground (arith, e) in
        let k_i : k ≡ i = ground (arith, e) in
        let old : present (m.words b k) ≡ false = rw (b_d, k_i) absent in
        let zero_word : (tabled d i p v m).words p j ≡ 0 = rw (dir_ne p refl) (cleared j) in
        rw (new, there, old, at) zero_word
    | inr n ↦ rw n (elim (Bool-cases (present (m.words b k))) [
      | inr out ↦ rw (dir-clear b k mb, out) refl
      | inl y ↦
          let t = page_of (m.words b k) in
          let kept : (tabled d i p v m).words t j ≡ m.words t j =
            rw (no_dir_table b k mb lk y) (table_clear t (u.no_table b k mb lk y) j) in
          rw (dir-clear b k mb, y) kept
    ])
  ]

  -- What an entry may name, it still may.
  pub tabled-IsMappable :
      (q : ℕ) → (q == p) ≡ false → IsMappable ds m q → IsMappable ds (tabled d i p v m) q
  unfolding clear_page
  tabled-IsMappable q ne o = record {
    taken = o.taken;
    usable = o.usable;
    no_dir = o.no_dir;
    no_table = λ b k mb lk y. elim (Bool-cases (b == d && k == i)) [
      | inl e ↦
          let new : (tabled d i p v m).words b k ≡ v = rw e refl in
          ap (λ w. page_of w == q) new ∙ ap (λ x. x == q) at ∙ ground (arith, ne)
      | inr n ↦
          let old : (tabled d i p v m).words b k ≡ m.words b k = rw n (dir-clear b k mb) in
          ap (λ w. page_of w == q) old ∙ o.no_table b k mb lk (sym (ap present old) ∙ y)
    ];
  }

  pub tabled-IsKept :
      (q : ℕ) → (q == p) ≡ false → (q == d) ≡ false → IsKept q m.words (tabled d i p v m).words
  tabled-IsKept q n o j = rw o (table_clear q n j)
