-- ===== src/Buddy/Zone.antt =====
-- `buddy_init_memmap`: the pages of a new zone become free.
use mips.Base.{
  ℕ, zero, suc, ◌+◌, ◌<◌, ◌==◌, ◌≡◌, refl, ap, sym, ◌∙◌, subst, true, false, some, count, leb, ltb,
  ◌&&◌, if◌then◌else◌, arith, inl, inr, ◌⊎◌, Bool-cases, ==_refl, ==_ne,
}
use mips.Buddy.{
  Page, Buddy, put_page, claim_pages, add_blocks, buddy_init_memmap, buddy_nr_free_pages,
}
use mips.Buddy.Blocks.{
  covers, in_block, in_block_self, in_block-covers, IsBuddy, IsPlaced, no_property,
}
use mips.Buddy.Range.{in_range, IsHeld, IsAligned}
use mips.Buddy.Fill.{add_blocks-IsReleased}

-- The pages of a new zone `z`, and all the others as before.
record IsClaimed (z p n : ℕ) (s s' : Buddy) : Type 0 where
  pub areas : s'.free_area ≡ s.free_area
  pub bases : s'.mem_base ≡ s.mem_base
  pub inside :
      (q : ℕ)
      → 0 < in_range p n q
      → ((s'.pages q).reserved ≡ false)
        × ((s'.pages q).has_property ≡ false)
        × ((s'.pages q).zone_num ≡ z)
  pub outside : (q : ℕ) → in_range p n q ≡ 0 → s'.pages q ≡ s.pages q

claim_pages-IsClaimed :
    (n p z : ℕ) (s : Buddy)
    → ((q : ℕ) → 0 < in_range p n q → (s.pages q).reserved ≡ true)
    → (s' : Buddy) × (claim_pages n p z s ≡ some s') × IsClaimed z p n s s'
unfolding claim_pages
claim_pages-IsClaimed zero p z s h = (
  s,
  refl,
  record {
    areas = refl;
    bases = refl;
    inside = λ q i. absurd (ground arith);
    outside = λ q i. refl;
  },
)
claim_pages-IsClaimed (suc n) p z s h =
    let here = h p (ground arith) in
    let page : Page = record {
      ref = 0;
      reserved = false;
      has_property = false;
      other_flags = 0;
      property = 0;
      zone_num = z;
    } in
    let t = put_page p page s in
    let (s', run, c) =
      claim_pages-IsClaimed n (p + 1) z t
        (λ q i. rw (==_ne q p (λ e. absurd (ground arith))) (h q (ground arith))) in
    (
      s',
      rw here run,
      record {
        areas = c.areas;
        bases = c.bases;
        inside = λ q i. elim (Bool-cases (q == p)) [
          | inl e ↦
              let at : s'.pages q ≡ page = c.outside q (ground arith) ∙ rw e refl in
              rw at (refl, refl, refl)
          | inr e ↦ c.inside q (ground arith)
        ];
        outside =
            λ q i. c.outside q (ground arith) ∙ rw (==_ne q p (λ e. absurd (ground arith))) refl;
      },
    )

-- Every free page is in a zone below `z`.
abbrev pub IsZoned : ℕ → Buddy → Type 0
IsZoned z s = (q : ℕ) → 0 < covers s q → (s.pages q).zone_num < z

range-cases : (p n q : ℕ) → (in_range p n q ≡ 0) ⊎ (0 < in_range p n q)
range-cases p n q = elim (Bool-cases (leb p q && ltb q (p + n))) [
  | inl e ↦ inr (rw e (omega arith))
  | inr e ↦ inl (rw e refl)
]

-- A new zone of reserved pages is claimed and entered in the table of zones.
module _ (p n : ℕ) (s s1 : Buddy) (b : IsBuddy s) (zoned : IsZoned s.next_zone s)
    (all : (q : ℕ) → 0 < in_range p n q → (s.pages q).reserved ≡ true)
    (c : IsClaimed s.next_zone p n s s1) where
  entered : Buddy
  entered = record s1 {
    mem_base = λ z. if z == s.next_zone then p else s1.mem_base z;
    next_zone = s.next_zone + 1;
  }

  none_free : (q : ℕ) → 0 < in_range p n q → covers s q ≡ 0
  none_free q i = elim (Bool-cases (ltb 0 (covers s q))) [
    | inl e ↦ absurd (reserved_twice (all q i) (b.usable q (ground arith)))
    | inr e ↦ ground arith
  ]
    where
      reserved_twice : (s.pages q).reserved ≡ true → (s.pages q).reserved ≡ false → ⊥
      reserved_twice t f = ground arith

  free_outside : (q : ℕ) → 0 < covers s q → s1.pages q ≡ s.pages q
  free_outside q i = elim (range-cases p n q) [
    | inl e ↦ c.outside q e
    | inr e ↦ absurd (omega (arith, none_free q e))
  ]

  covers-entered : (q : ℕ) → covers entered q ≡ covers s q
  unfolding covers entered
  covers-entered q = rw c.areas refl

  total-entered : buddy_nr_free_pages entered ≡ buddy_nr_free_pages s
  unfolding buddy_nr_free_pages entered
  total-entered = rw c.areas refl

  entered-IsPlaced :
      (k q : ℕ) → k < 11 → 0 < count q (s.free_area k).free_list → IsPlaced k q entered
  unfolding entered
  entered-IsPlaced k q h i =
      let (z, m, at, zone) = b.placed k q h i in
      let free : (r : ℕ) → 0 < in_block k q r → 0 < covers s r =
        λ r j. omega (arith, in_block-covers k q r s h i) in
      let first = zone q (omega (arith, in_block_self k q)) in
      let old = zoned q (free q (omega (arith, in_block_self k q))) in
      let other : (z == s.next_zone) ≡ false = ==_ne z s.next_zone (λ e. absurd (omega arith)) in
      (z, m, rw (other, c.bases) at, λ r j. rw (free_outside r (free r j)) (zone r j))

  entered-IsBuddy : IsBuddy entered
  unfolding entered
  entered-IsBuddy = record {
    counted = λ k q h. elim (range-cases p n q) [
      | inl e ↦ rw (c.areas, c.outside q e) (b.counted k q h)
      | inr e ↦
          let bare : (s1.pages q).has_property ≡ false = (c.inside q e).1 in
          rw (c.areas, bare) (b.counted k q h ∙ rw (no_property s q b (none_free q e)) refl)
    ];
    numbered = λ k h. rw c.areas (b.numbered k h);
    valued = λ q e. elim (range-cases p n q) [
      | inl o ↦ rw (c.outside q o) (b.valued q (ap (λ g. g.has_property) (sym (c.outside q o)) ∙ e))
      | inr o ↦
          let bare : (s1.pages q).has_property ≡ false = (c.inside q o).1 in absurd (ground arith)
    ];
    disjoint = λ q. omega (arith, covers-entered q, b.disjoint q);
    usable = λ q u.
        let free : 0 < covers s q = omega (arith, covers-entered q) in
        rw (free_outside q free) (b.usable q free);
    placed = λ k q h i. entered-IsPlaced k q h (subst (λ f. 0 < count q (f k).free_list) c.areas i);
  }

  entered-IsHeld : IsHeld s.next_zone p n entered
  unfolding entered
  entered-IsHeld = record {
    taken = λ q i. covers-entered q ∙ none_free q i;
    clean = λ q i. (c.inside q i).0;
    zone = λ q i. (c.inside q i).2;
  }

  entered-IsZoned : IsZoned (s.next_zone + 1) entered
  unfolding entered
  entered-IsZoned q u =
      let free : 0 < covers s q = omega (arith, covers-entered q) in
      rw (free_outside q free) (omega (arith, zoned q free))

  entered-IsAligned : IsAligned (entered.mem_base s.next_zone) 10 p
  unfolding entered
  entered-IsAligned = (0, rw (==_refl s.next_zone) (omega arith))

  added :
      0 < n
      → (s' : Buddy) × (add_blocks (n + 10 + 1) p n 10 entered ≡ some s')
        × IsBuddy s'
        × ((q : ℕ) → covers s' q ≡ covers s q + in_range p n q)
        × (buddy_nr_free_pages s' ≡ buddy_nr_free_pages s + n)
        × IsZoned (s.next_zone + 1) s'
  added h =
      let (s', run, r) =
        add_blocks-IsReleased (n + 10 + 1) p n 10 s.next_zone entered (omega arith) (omega arith)
          entered-IsBuddy entered-IsHeld entered-IsAligned in
      let zone : IsZoned (s.next_zone + 1) s' = λ q u. elim (range-cases p n q) [
        | inl e ↦ omega (arith, r.zones q, entered-IsZoned q (omega (arith, r.cover q)))
        | inr i ↦ omega (arith, r.zones q, entered-IsHeld.zone q i)
      ] in
      (
        s',
        run,
        r.buddy,
        λ q. r.cover q ∙ ap (λ k. k + in_range p n q) (covers-entered q),
        omega (arith, r.total, total-entered),
        zone,
      )

-- `buddy_init_memmap` of reserved pages, with a zone left to number and the free pages so far in
-- zones of smaller numbers: it passes its assertions and returns, and exactly these pages are free in
-- addition, the count of free pages included, each in one free block.
pub buddy_init_memmap-IsBuddy :
    (p n : ℕ) (s : Buddy)
    → 0 < n
    → s.next_zone < 10
    → IsBuddy s
    → IsZoned s.next_zone s
    → ((q : ℕ) → 0 < in_range p n q → (s.pages q).reserved ≡ true)
    → (s' : Buddy) × (buddy_init_memmap p n s ≡ some s')
      × IsBuddy s'
      × ((q : ℕ) → covers s' q ≡ covers s q + in_range p n q)
      × (buddy_nr_free_pages s' ≡ buddy_nr_free_pages s + n)
      × IsZoned (s.next_zone + 1) s'
unfolding buddy_init_memmap entered
buddy_init_memmap-IsBuddy p n s h few b zoned all =
    let some_pages : ltb 0 n ≡ true = ground arith in
    let left : ltb s.next_zone 10 ≡ true = ground arith in
    let (s1, run, c) = claim_pages-IsClaimed n p s.next_zone s all in
    let (s', run', buddy, cover, total, zone) = added p n s s1 b zoned all c h in
    (s', rw (some_pages, left, run) run', buddy, cover, total, zone)
