-- ===== src/Paging/Replace.antt =====
-- What `page_insert` does with the entry that was there: three cases.
use mips.Base.{
  ℕ, ◌+◌, ◌-◌, ◌%◌, ◌^◌, ◌<◌, ◌≤◌, ◌==◌, ◌≡◌, refl, ap, true, false, List, [], ◌∷◌, mem, count,
  ◌&&◌, one_if, if◌then◌else◌, arith, inl, inr, Bool-cases, ℕ-cases, ==_refl, ==_ne, sym, ◌∙◌, some,
  subst, ◌≢◌,
}
use mips.Buddy.Blocks.{covers}
use mips.Buddy.Refs.{set_ref, set_ref-covers}
use mips.Paging.{
  Memory, present, page_ref, store, pte2page, page_remove_pte, page_ref_inc, page_ref_dec,
  replace_pte, replace_page,
}
use mips.Paging.Entry.{page_of}
use mips.Paging.Uses.{Words, uses, IsTable, ne_of_mem, leaf_uses, put, ne_of_mem, IsTable-same}
use mips.Paging.Valid.{IsPaged}
use mips.Paging.Hold.{IsMappable, ref_bound, page_ref_inc-IsPaged}
use mips.Paging.Drop.{
  IsDropped-IsPaged, held-no_table, held-no_dir, held_pos, kept-IsDropped, page_ref_dec-value,
}
use mips.Paging.Walk.{pa2page-some}
use mips.Paging.Remove.{
  page_remove_pte-IsRemoved, leaf-used, absent_zero, leaf_uses-absent, leaf_uses-page,
  cleared-IsPaged,
}

-- The page of an entry is one that entries may name.
pub leaf-IsMappable :
    (ds : List ℕ) (m : Memory) (d i t j : ℕ)
    → IsPaged ds [] m
    → mem d ds ≡ true
    → IsTable m.words ds d i t
    → j < 1024
    → present (m.words t j) ≡ true
    → IsMappable ds m (page_of (m.words t j))
leaf-IsMappable ds m d i t j v here a l y =
    let page = page_of (m.words t j) in
    let v0 = cleared-IsPaged ds [] m d i t j v here a l y in
    let pos = held_pos ds [] (store (t, j) 0 m) page v0 in
    record {
      taken = elim (ℕ-cases (covers m.phys page) 0) [
        | inl e ↦ e
        | inr n ↦ absurd (omega (arith, (v.quiet page (omega arith)).0))
      ];
      usable = v.usable page pos;
      no_dir = elim (Bool-cases (mem page ds)) [
        | inr n ↦ n
        | inl e ↦ absurd (ground (arith, held-no_dir ds [] (store (t, j) 0 m) page page v0 e))
      ];
      no_table = λ b k mb lk z.
          let dir : (store (t, j) 0 m).words b k ≡ m.words b k =
            rw (ne_of_mem b t ds mb a.out) refl in
          sym (ap (λ x. page_of x == page) dir)
          ∙ held-no_table ds [] (store (t, j) 0 m) page b k v0 mb lk (ap present dir ∙ z);
    }

replace_run-same :
    (m : Memory) (t j old page : ℕ)
    → present (m.words t j) ≡ true
    → pte2page (m.words t j) m ≡ some old
    → (old == page) ≡ true
    → replace_pte (t, j) page m ≡ some (page_ref_dec page m)
unfolding replace_pte replace_page
replace_run-same m t j old page y e same = rw (replace_pte, y, e, same) refl

replace_run-other :
    (m m' : Memory) (t j old page : ℕ)
    → present (m.words t j) ≡ true
    → pte2page (m.words t j) m ≡ some old
    → (old == page) ≡ false
    → page_remove_pte (t, j) m ≡ some m'
    → replace_pte (t, j) page m ≡ some m'
unfolding replace_pte replace_page
replace_run-other m m' t j old page y e n run = rw (replace_pte, y, e, n, run) refl

-- The entry can now be written: `held` are the references that are still to be accounted for.
pub record IsReplaced (ds : List ℕ) (d i t j page w : ℕ) (m m' : Memory) : Type 0 where
  pub held : List ℕ
  pub paged : IsPaged ds held m'
  pub table : IsTable m'.words ds d i t
  pub balance : (q : ℕ) → leaf_uses w q ≡ leaf_uses (m'.words t j) q + count q held
  pub words : (q k : ℕ) → put t j w m'.words q k ≡ put t j w m.words q k
  pub refs : (q : ℕ) → page_ref q m' + leaf_uses (m.words t j) q ≡ page_ref q m + one_if (q == page)
  pub freed :
      (q : ℕ)
      → covers m'.phys q
        ≡ covers m.phys q + (if page_ref q m' == 0 then leaf_uses (m.words t j) q else 0)

module _ (ds : List ℕ) (d i t j page w : ℕ) (m : Memory) (v : IsPaged ds [] m)
    (here : mem d ds ≡ true) (a : IsTable m.words ds d i t) (l : j < 1024)
    (u : IsMappable ds m page) (there : present w ≡ true) (names : page_of w ≡ page) where
  abbrev held_memory : Memory
  held_memory = page_ref_inc page m

  inc_words : held_memory.words ≡ m.words
  unfolding page_ref_inc
  inc_words = refl

  v2 : IsPaged ds (page ∷ []) held_memory
  v2 = page_ref_inc-IsPaged ds [] m page v u (omega arith)

  inc_ref : (q : ℕ) → page_ref q held_memory ≡ page_ref q m + one_if (q == page)
  unfolding count
  inc_ref q = omega (arith, v2.counted q, v.counted q, ap (λ x. uses x ds q) inc_words)

  inc_covers : (q : ℕ) → covers held_memory.phys q ≡ covers m.phys q
  unfolding page_ref_inc
  inc_covers q = set_ref-covers page ((page_ref page m + 1) % 2 ^ 32) m.phys q

  new_leaf : (q : ℕ) → leaf_uses w q ≡ one_if (q == page)
  new_leaf q = leaf_uses-page w q there ∙ rw names refl

  replace_none :
      present (m.words t j) ≡ false
      → (replace_pte (t, j) page held_memory ≡ some held_memory)
        × IsReplaced ds d i t j page w m held_memory
  unfolding replace_pte count page_ref_inc
  replace_none n = (
    rw (replace_pte, inc_words, n) refl,
    record {
      held = page ∷ [];
      paged = v2;
      table = rw inc_words a;
      balance = λ q. rw inc_words (omega (arith, new_leaf q, leaf_uses-absent (m.words t j) q n));
      words = λ q k. rw inc_words refl;
      refs = λ q. omega (arith, inc_ref q, leaf_uses-absent (m.words t j) q n);
      freed = λ q. inc_covers q ∙ rw (leaf_uses-absent (m.words t j) q n) (ground arith);
    },
  )

  old_page :
      present (m.words t j) ≡ true
      → pte2page (held_memory.words t j) held_memory ≡ some (page_of (m.words t j))
  unfolding pte2page page_ref_inc
  old_page y =
      let old = page_of (m.words t j) in
      let used : leaf_uses (m.words t j) old ≡ 1 =
        leaf_uses-page (m.words t j) old y ∙ ap one_if (==_refl old) in
      rw y (
        pa2page-some (m.words t j) held_memory
          (v.usable old (omega (arith, used, leaf-used ds [] m d i t j old v here a l))).inside)

  -- The same page again.
  replace_same :
      present (m.words t j) ≡ true
      → (page_of (m.words t j) == page) ≡ true
      → (m3 : Memory) × (replace_pte (t, j) page held_memory ≡ some m3)
        × IsReplaced ds d i t j page w m m3
  unfolding count
  replace_same y e =
      let same : page_of (m.words t j) ≡ page = ground (arith, e) in
      let old : (q : ℕ) → leaf_uses (m.words t j) q ≡ one_if (q == page) =
        λ q. leaf_uses-page (m.words t j) q y ∙ rw same refl in
      let used : 1 ≤ page_ref page m =
        omega
          (arith, old page, ap one_if (==_refl page), leaf-used ds [] m d i t j page v here a l) in
      let more : page_ref page held_memory ≢ 1 =
        λ one. absurd (omega (arith, inc_ref page, ap one_if (==_refl page))) in
      let m3 : Memory = record held_memory {
        phys = set_ref page (page_ref page held_memory - 1) held_memory.phys;
      } in
      let run : replace_pte (t, j) page held_memory ≡ some m3 =
        replace_run-same held_memory t j (page_of (m.words t j)) page
          (ap (λ (x : Words). present (x t j)) inc_words ∙ y) (old_page y) e
        ∙ ap some (
            page_ref_dec-value page held_memory (omega (arith, inc_ref page))
              (omega (arith, ref_bound ds (page ∷ []) held_memory page v2 (omega arith)))) in
      let dr = kept-IsDropped ds [] page held_memory v2 more in
      (
        m3,
        run,
        record {
          held = [];
          paged = IsDropped-IsPaged ds [] held_memory m3 page v2 dr;
          table = rw inc_words a;
          balance = λ q. rw inc_words (omega (arith, new_leaf q, old q));
          words = λ q k. rw inc_words refl;
          refs = λ q. omega (arith, dr.refs q, inc_ref q, old q);
          freed = λ q.
              dr.cover q
              ∙ freed q (page_ref q m3) more used (old q) (omega (arith, dr.refs q, inc_ref q));
        },
      )
    where
      freed :
          (q r : ℕ)
          → page_ref page held_memory ≢ 1
          → 1 ≤ page_ref page m
          → leaf_uses (m.words t j) q ≡ one_if (q == page)
          → r ≡ page_ref q m
          → covers held_memory.phys q + one_if (q == page && page_ref page held_memory == 1)
            ≡ covers m.phys q + (if r == 0 then leaf_uses (m.words t j) q else 0)
      freed q r more used old e = elim (Bool-cases (q == page)) [
        | inr n ↦
            let unused : leaf_uses (m.words t j) q ≡ 0 = old ∙ rw n refl in
            rw (n, unused, inc_covers q) (ground arith)
        | inl s ↦
            let same : q ≡ page = ground (arith, s) in
            let some_ref : 1 ≤ r = omega (arith, e, ap (λ x. page_ref x m) same, used) in
            let pos : (r == 0) ≡ false = ground arith in
            rw (s, ==_ne (page_ref page held_memory) 1 more, pos, inc_covers q) (omega arith)
      ]

  -- Another page.
  replace_other :
      present (m.words t j) ≡ true
      → (page_of (m.words t j) == page) ≡ false
      → (m3 : Memory) × (replace_pte (t, j) page held_memory ≡ some m3)
        × IsReplaced ds d i t j page w m m3
  unfolding count
  replace_other y n =
      let a2 : IsTable held_memory.words ds d i t = rw inc_words a in
      let (m3, run, r) =
        page_remove_pte-IsRemoved ds (page ∷ []) held_memory d i t j v2 here a2 l (omega arith) in
      let words : m3.words ≡ put t j 0 m.words = r.words ∙ rw (inc_words, y) refl in
      let cleared : m3.words t j ≡ 0 = rw (words, ==_refl t, ==_refl j) refl in
      (
        m3,
        replace_run-other held_memory m3 t j (page_of (m.words t j)) page
            (ap (λ (x : Words). present (x t j)) inc_words ∙ y) (old_page y) n run,
        record {
          held = page ∷ [];
          paged = r.paged;
          table = rw words (
              IsTable-same m.words (put t j 0 m.words) ds d i t
                (λ b k mb. rw (ne_of_mem b t ds mb a.out) refl) here a);
          balance = λ q. rw cleared (omega (arith, new_leaf q, leaf_uses-absent 0 q absent_zero));
          words = λ q k. rw words (twice q k);
          refs = λ q. omega (
            arith,
            subst (λ (x : Words). page_ref q m3 + leaf_uses (x t j) q ≡ page_ref q held_memory)
                inc_words (r.refs q),
            inc_ref q,
          );
          freed = λ q.
              subst
                (λ (x : Words).
                  covers m3.phys q
                  ≡ covers held_memory.phys q
                    + (if page_ref q m3 == 0 then leaf_uses (x t j) q else 0))
                inc_words (r.freed q)
              ∙ ap (λ n. n + (if page_ref q m3 == 0 then leaf_uses (m.words t j) q else 0))
                  (inc_covers q);
        },
      )
    where
      twice : (q k : ℕ) → put t j w (put t j 0 m.words) q k ≡ put t j w m.words q k
      twice q k = elim (Bool-cases (q == t && k == j)) [ inl e ↦ rw e refl | inr n ↦ rw n refl ]

  pub replace_pte-IsReplaced :
      (m3 : Memory) × (replace_pte (t, j) page held_memory ≡ some m3)
      × IsReplaced ds d i t j page w m m3
  replace_pte-IsReplaced = elim (Bool-cases (present (m.words t j))) [
    | inr n ↦ let (run, r) = replace_none n in (held_memory, run, r)
    | inl y ↦ elim (Bool-cases (page_of (m.words t j) == page)) [
      | inl e ↦ replace_same y e
      | inr n ↦ replace_other y n
    ]
  ]
