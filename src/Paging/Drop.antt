-- ===== src/Paging/Drop.antt =====
-- A reference is dropped: `page_ref_dec` and the free of a page without references.
use mips.Base.{
  ℕ, ◌+◌, ◌-◌, ◌%◌, ◌^◌, ◌<◌, ◌==◌, ◌≡◌, refl, ap, true, false, List, ◌∷◌, length, mem, count, ◌&&◌,
  one_if, if◌then◌else◌, arith, inl, inr, Bool-cases, ℕ-cases, ==_refl, ==_ne, ◌∙◌, some,
  Option-cases, subst, ◌≢◌,
}
use mips.Buddy.{Buddy, buddy_nr_free_pages, buddy_free_pages}
use mips.Buddy.Blocks.{covers, IsBuddy}
use mips.Buddy.Frame.{IsFramed, IsFramed-trans}
use mips.Buddy.Refs.{
  set_ref, set_ref-ref, set_ref-covers, set_ref-total, set_ref-IsFramed, set_ref-IsBuddy,
}
use mips.Buddy.Single.{IsTakenBack, free_one-IsTakenBack}
use mips.Paging.{Memory, present, page_ref, page_ref_dec, drop_page, free_unused, free_page}
use mips.Paging.Entry.{page_of}
use mips.Paging.Uses.{Words}
use mips.Paging.Valid.{IsPaged, IsUsable-framed, table-uses_pos}
use mips.Paging.Hold.{ref_bound}

-- One reference of `p` less, and with the last one the page is free.
pub record IsDropped (p : ℕ) (m m' : Memory) : Type 0 where
  pub words : m'.words ≡ m.words
  pub buddy : IsBuddy m'.phys
  pub refs : (q : ℕ) → page_ref q m' + one_if (q == p) ≡ page_ref q m
  pub cover : (q : ℕ) → covers m'.phys q ≡ covers m.phys q + one_if (q == p && page_ref p m == 1)
  pub total : buddy_nr_free_pages m'.phys ≡ buddy_nr_free_pages m.phys + one_if (page_ref p m == 1)
  pub frame : IsFramed m.phys m'.phys
  pub bound : m'.phys.npage ≡ m.phys.npage

pub held_pos : (ds h : List ℕ) (m : Memory) (p : ℕ) → IsPaged ds (p ∷ h) m → 0 < page_ref p m
unfolding count
held_pos ds h m p v = rw (v.counted p, ==_refl p) (omega arith)

-- No table and no directory is held.
pub held-no_table :
    (ds h : List ℕ) (m : Memory) (p d i : ℕ)
    → IsPaged ds (p ∷ h) m
    → mem d ds ≡ true
    → i < 1024
    → present (m.words d i) ≡ true
    → (page_of (m.words d i) == p) ≡ false
unfolding count
held-no_table ds h m p d i v here l there =
    let t = page_of (m.words d i) in
    elim (Bool-cases (t == p)) [
      | inr n ↦ n
      | inl e ↦ absurd (
          ground (
            arith,
            v.alone d i here l there,
            v.counted t,
            table-uses_pos ds m.words d i here l there,
          ))
    ]

pub held-no_dir :
    (ds h : List ℕ) (m : Memory) (p d : ℕ)
    → IsPaged ds (p ∷ h) m
    → mem d ds ≡ true
    → (d == p) ≡ false
held-no_dir ds h m p d v here = elim (Bool-cases (d == p)) [
  | inr n ↦ n
  | inl e ↦
      let same : d ≡ p = ground arith in
      absurd (omega (arith, (v.dirs d here).2, held_pos ds h m p v, ap (λ q. page_ref q m) same))
]

pub IsDropped-IsPaged :
    (ds h : List ℕ) (m m' : Memory) (p : ℕ)
    → IsPaged ds (p ∷ h) m
    → IsDropped p m m'
    → IsPaged ds h m'
unfolding count
IsDropped-IsPaged ds h m m' p v a =
    let ref : (q : ℕ) → (q == p) ≡ false → page_ref q m' ≡ page_ref q m =
      λ q n. omega (arith, a.refs q, ap one_if n) in
    record {
      buddy = a.buddy;
      few = v.few;
      small = rw a.bound v.small;
      dirs = λ d here.
          let (once, out, none_there) = v.dirs d here in
          let n = held-no_dir ds h m p d v here in
          (once, a.cover d ∙ rw (n, out) refl, ref d n ∙ none_there);
      counted = λ q. rw a.words (omega (arith, a.refs q, v.counted q));
      alone = rw a.words (λ d i here l there.
          ref (page_of (m.words d i)) (held-no_table ds h m p d i v here l there)
          ∙ v.alone d i here l there);
      usable = λ q pos.
          IsUsable-framed q m.phys m'.phys a.frame a.bound (v.usable q (omega (arith, a.refs q)));
      quiet = λ q c. rw a.bound (still q c);
    }
  where
    still : (q : ℕ) → 0 < covers m'.phys q → (page_ref q m' ≡ 0) × (q < m.phys.npage)
    still q c = elim (Bool-cases (q == p)) [
      | inr n ↦
          let (zero_ref, inside) =
            v.quiet q (subst (λ x. 0 < x) (a.cover q ∙ rw n (omega arith)) c) in
          (omega (arith, a.refs q, zero_ref), inside)
      | inl e ↦
          let same : q ≡ p = ground arith in
          let pos = held_pos ds h m p v in
          elim (ℕ-cases (page_ref p m) 1) [
            | inl one ↦ (
              omega (arith, a.refs q, ap (λ x. page_ref x m) same, one, ap one_if e),
              rw same (v.usable p pos).inside,
            )
            | inr more ↦
                let c1 : 0 < covers m.phys q =
                  subst (λ x. 0 < x) (a.cover q ∙ rw (e, ==_ne (page_ref p m) 1 more) (omega arith))
                    c in
                absurd (omega (arith, (v.quiet q c1).0, ap (λ x. page_ref x m) same, pos))
          ]
    ]

-- The last reference: the page goes back to the allocator.
freed-IsDropped :
    (p : ℕ) (m : Memory) (s : Buddy)
    → page_ref p m ≡ 1
    → IsTakenBack p (set_ref p 0 m.phys) s
    → IsDropped p m (record m { phys = s })
freed-IsDropped p m s one t = record {
  words = refl;
  buddy = t.buddy;
  refs = λ q. refs q (t.refs q);
  cover = λ q. omega (arith, t.cover q, set_ref-covers p 0 m.phys q, both q);
  total = t.total ∙ rw one (omega (arith, set_ref-total p 0 m.phys));
  frame = IsFramed-trans m.phys (set_ref p 0 m.phys) s (set_ref-IsFramed p 0 m.phys) t.frame;
  bound = t.bound;
}
  where
    both : (q : ℕ) → one_if (q == p && page_ref p m == 1) ≡ one_if (q == p)
    both q = rw one (ground arith)

    refs :
        (q : ℕ)
        → (s.pages q).ref ≡ (if q == p then 0 else ((set_ref p 0 m.phys).pages q).ref)
        → (s.pages q).ref + one_if (q == p) ≡ page_ref q m
    refs q e = elim (Bool-cases (q == p)) [
      | inl y ↦
          let same : q ≡ p = ground arith in
          omega (
            arith,
            e,
            ap (λ b. if b then 0 else ((set_ref p 0 m.phys).pages q).ref) y,
            ap one_if y,
            ap (λ x. page_ref x m) same,
            one,
          )
      | inr n ↦ ground (arith, e, n)
    ]

pub kept-IsDropped :
    (ds h : List ℕ) (p : ℕ) (m : Memory)
    → IsPaged ds (p ∷ h) m
    → page_ref p m ≢ 1
    → IsDropped p m (record m { phys = set_ref p (page_ref p m - 1) m.phys })
kept-IsDropped ds h p m v more = record {
  words = refl;
  buddy = set_ref-IsBuddy p (page_ref p m - 1) m.phys v.buddy;
  refs = λ q. refs q (held_pos ds h m p v);
  cover = λ q.
      set_ref-covers p (page_ref p m - 1) m.phys q
      ∙ rw (==_ne (page_ref p m) 1 more) (ground arith);
  total =
      set_ref-total p (page_ref p m - 1) m.phys ∙ rw (==_ne (page_ref p m) 1 more) (omega arith);
  frame = set_ref-IsFramed p (page_ref p m - 1) m.phys;
  bound = refl;
}
  where
    moved :
        (q : ℕ)
        → 0 < page_ref p m
        → (if q == p then page_ref p m - 1 else page_ref q m) + one_if (q == p) ≡ page_ref q m
    moved q pos = elim (Bool-cases (q == p)) [
      | inl y ↦ let same : q ≡ p = ground arith in rw y (omega (arith, ap (λ x. page_ref x m) same))
      | inr n ↦ rw n (omega arith)
    ]

    refs :
        (q : ℕ)
        → 0 < page_ref p m
        → ((set_ref p (page_ref p m - 1) m.phys).pages q).ref + one_if (q == p) ≡ page_ref q m
    refs q pos =
        ap (λ n. n + one_if (q == p)) (set_ref-ref p (page_ref p m - 1) m.phys q) ∙ moved q pos

pub page_ref_dec-value :
    (p : ℕ) (m : Memory)
    → 0 < page_ref p m
    → page_ref p m < 2 ^ 32
    → page_ref_dec p m ≡ record m { phys = set_ref p (page_ref p m - 1) m.phys }
unfolding page_ref_dec
page_ref_dec-value p m pos l =
    let down : (page_ref p m + 2 ^ 32 - 1) % 2 ^ 32 ≡ page_ref p m - 1 = omega arith in
    ap (λ (v : ℕ). record m { phys = set_ref p v m.phys }) down

ref_of_set : (p r : ℕ) (m : Memory) → page_ref p (record m { phys = set_ref p r m.phys }) ≡ r
ref_of_set p r m = set_ref-ref p r m.phys p ∙ rw (==_refl p) refl

unused_run :
    (p : ℕ) (m : Memory) (s : Buddy)
    → page_ref p m ≡ 0
    → buddy_free_pages p 1 m.phys ≡ some s
    → free_unused p m ≡ some (record m { phys = s })
unfolding free_unused free_page
unused_run p m s e run = rw (free_unused, e, run) refl

used_run : (p : ℕ) (m : Memory) → 0 < page_ref p m → free_unused p m ≡ some m
unfolding free_unused
used_run p m pos =
    let used : (page_ref p m == 0) ≡ false = ground arith in rw (free_unused, used) refl

drop_page-last :
    (p : ℕ) (m : Memory) (s : Buddy)
    → page_ref p m ≡ 1
    → buddy_free_pages p 1 (set_ref p 0 m.phys) ≡ some s
    → drop_page p m ≡ some (record m { phys = s })
unfolding drop_page
drop_page-last p m s one run =
    ap (free_unused p) (
      page_ref_dec-value p m (omega arith) (omega arith)
      ∙ ap (λ (v : ℕ). record m { phys = set_ref p (v - 1) m.phys }) one)
    ∙ unused_run p (record m { phys = set_ref p 0 m.phys }) s (ref_of_set p 0 m) run

drop_page-more :
    (p : ℕ) (m : Memory)
    → 1 < page_ref p m
    → page_ref p m < 2 ^ 32
    → drop_page p m ≡ some (record m { phys = set_ref p (page_ref p m - 1) m.phys })
unfolding drop_page
drop_page-more p m more l =
    ap (free_unused p) (page_ref_dec-value p m (omega arith) l)
    ∙ used_run p (record m { phys = set_ref p (page_ref p m - 1) m.phys })
        (omega (arith, ref_of_set p (page_ref p m - 1) m))

-- The words have no part in it.
free_unused-words :
    (p : ℕ) (m m' : Memory) (u : Words)
    → free_unused p (record m { words = u }) ≡ some m'
    → (free_unused p m ≡ some (record m' { words = m.words })) × (m'.words ≡ u)
unfolding free_unused free_page
free_unused-words p m m' u h = elim (Bool-cases (page_ref p m == 0)) [
  | inl y ↦ elim (Option-cases (buddy_free_pages p 1 m.phys)) [
    | inl stop ↦ absurd (cc)
    | inr (s, run) ↦ ground (arith, h, y, run)
  ]
  | inr n ↦ ground (arith, h, n)
]

pub drop_page-words :
    (p : ℕ) (m m' : Memory) (u : Words)
    → drop_page p (record m { words = u }) ≡ some m'
    → (drop_page p m ≡ some (record m' { words = m.words })) × (m'.words ≡ u)
unfolding drop_page page_ref_dec
drop_page-words p m m' u h = free_unused-words p (page_ref_dec p m) m' u h

pub drop_page-IsDropped :
    (ds h : List ℕ) (m : Memory) (p : ℕ)
    → IsPaged ds (p ∷ h) m
    → length h < 9
    → (m' : Memory) × (drop_page p m ≡ some m') × IsDropped p m m'
drop_page-IsDropped ds h m p v l = elim (ℕ-cases (page_ref p m) 1) [
  | inl one ↦
      let pos = held_pos ds h m p v in
      let u = v.usable p pos in
      let f = set_ref-IsFramed p 0 m.phys in
      let u' = IsUsable-framed p m.phys (set_ref p 0 m.phys) f refl u in
      let (s, run, t) =
        free_one-IsTakenBack p (set_ref p 0 m.phys) (set_ref-IsBuddy p 0 m.phys v.buddy)
          (set_ref-covers p 0 m.phys p ∙ not_free pos) u'.clean u'.above in
      (record m { phys = s }, drop_page-last p m s one run, freed-IsDropped p m s one t)
  | inr more ↦ (
    record m { phys = set_ref p (page_ref p m - 1) m.phys },
    drop_page-more p m (omega (arith, held_pos ds h m p v))
        (omega (arith, ref_bound ds (p ∷ h) m p v (omega arith))),
    kept-IsDropped ds h p m v more,
  )
]
  where
    not_free : 0 < page_ref p m → covers m.phys p ≡ 0
    not_free pos = elim (ℕ-cases (covers m.phys p) 0) [
      | inl e ↦ e
      | inr n ↦ absurd (omega (arith, (v.quiet p (omega arith)).0))
    ]
