-- ===== src/Buddy/Blocks.antt =====
-- The free blocks: what pages they cover, and what a state promises of them.
use mips.Base.{
  ℕ, suc, ◌+◌, ◌*◌, ◌^◌, ◌<◌, ◌≤◌, ◌==◌, ◌≡◌, refl, Bool, true, false, List, [], ◌∷◌, length, mem,
  count, erase, one_if, ltb, leb, ◌&&◌, arith, ◌⊎◌, ◌∙◌, Bool-cases, inl, inr, count-erase,
  length-erase, mem_of_count, ==_refl,
}
use mips.Buddy.{Page, Buddy, add_block, unlink_block, clear_property}
use mips.Buddy.Bits.{pow_pos}
use mips.Buddy.Sums.{sum_below, sum_below-change, le-sum_below}

-- One for a page of the block of 2 ^ k pages at `p`.
abbrev pub in_block : (k p q : ℕ) → ℕ
in_block k p q = one_if (leb p q && ltb q (p + 2 ^ k))

-- How many of the blocks of 2 ^ k pages cover page `q`.
unfoldable pub covered : (k q : ℕ) → List ℕ → ℕ
covered k q [] = 0
covered k q (p ∷ l) = in_block k p q + covered k q l

-- How many free blocks cover page `q`.
unfoldable pub covers : Buddy → ℕ → ℕ
covers s q = sum_below 11 (λ k. covered k q (s.free_area k).free_list)

-- The page is the first one of a free block of 2 ^ k pages.
abbrev pub is_head : ℕ → Page → Bool
is_head k page = page.has_property && page.property == k

-- The block of 2 ^ k pages at `p` is aligned behind the base of a zone that all its pages are in.
abbrev pub IsPlaced : (k p : ℕ) → Buddy → Type 0
IsPlaced k p s =
    (z m : ℕ) × (p ≡ s.mem_base z + m * 2 ^ k)
    × ((q : ℕ) → 0 < in_block k p q → (s.pages q).zone_num ≡ z)

pub record IsBuddy (s : Buddy) : Type 0 where
  pub counted :
      (k p : ℕ) → k < 11 → count p (s.free_area k).free_list ≡ one_if (is_head k (s.pages p))
  pub numbered : (k : ℕ) → k < 11 → (s.free_area k).nr_free ≡ length (s.free_area k).free_list
  pub valued : (p : ℕ) → (s.pages p).has_property ≡ true → (s.pages p).property < 11
  pub disjoint : (q : ℕ) → covers s q ≤ 1
  pub usable : (q : ℕ) → 0 < covers s q → (s.pages q).reserved ≡ false
  pub placed : (k p : ℕ) → k < 11 → 0 < count p (s.free_area k).free_list → IsPlaced k p s

pub in_block_self : (k p : ℕ) → in_block k p p ≡ 1
in_block_self k p = ground (arith, pow_pos k)

covered-erase :
    (k p q : ℕ) (l : List ℕ)
    → mem p l ≡ true
    → covered k q (erase p l) + in_block k p q ≡ covered k q l
unfolding covered erase mem
covered-erase k p q [] h = absurd (ground arith)
covered-erase k p q (x ∷ l) h = elim (Bool-cases (p == x)) [
  | inl e ↦ let same : p ≡ x = ground arith in rw (same, ==_refl x) (omega arith)
  | inr e ↦
      let rest : mem p l ≡ true = ground arith in rw e (omega (arith, covered-erase k p q l rest))
]

-- A block of the list covers its pages.
in_block-covered : (k p q : ℕ) (l : List ℕ) → 0 < count p l → in_block k p q ≤ covered k q l
in_block-covered k p q l h = omega (arith, covered-erase k p q l (mem_of_count p l h))

pub in_block-covers :
    (k p q : ℕ) (s : Buddy)
    → k < 11
    → 0 < count p (s.free_area k).free_list
    → in_block k p q ≤ covers s q
unfolding covers
in_block-covers k p q s h c = omega (
  arith,
  in_block-covered k p q (s.free_area k).free_list c,
  le-sum_below 11 k (λ j. covered j q (s.free_area j).free_list) h,
)

-- No page outside the free blocks has a valid `property`.
pub no_property :
    (s : Buddy) (p : ℕ) → IsBuddy s → covers s p ≡ 0 → (s.pages p).has_property ≡ false
no_property s p b h = elim (Bool-cases (s.pages p).has_property) [
  | inr e ↦ e
  | inl e ↦
      let k = (s.pages p).property in
      let small = b.valued p e in
      let one : count p (s.free_area k).free_list ≡ 1 =
        rw (b.counted k p small, e, ==_refl k) refl in
      absurd (omega (arith, in_block-covers k p p s small (omega arith), in_block_self k p))
]

-- A change of the list of one order.
covers-change :
    (k q : ℕ) (s s' : Buddy)
    → k < 11
    → ((j : ℕ) → (j == k) ≡ false → (s'.free_area j).free_list ≡ (s.free_area j).free_list)
    → covers s' q + covered k q (s.free_area k).free_list
      ≡ covers s q + covered k q (s'.free_area k).free_list
unfolding covers
covers-change k q s s' h e =
    sum_below-change 11 k (λ j. covered j q (s.free_area j).free_list)
      (λ j. covered j q (s'.free_area j).free_list) h (λ j l d. rw (e j d) refl)

list-add_block :
    (k p : ℕ) (s : Buddy)
    → ((add_block k p s).free_area k).free_list ≡ p ∷ (s.free_area k).free_list
unfolding add_block
list-add_block k p s = rw (==_refl k) refl

pub covers-add_block :
    (k p q : ℕ) (s : Buddy) → k < 11 → covers (add_block k p s) q ≡ covers s q + in_block k p q
unfolding add_block covered
covers-add_block k p q s h =
    let change = covers-change k q s (add_block k p s) h (λ j e. rw e refl) in
    let list : covered k q ((add_block k p s).free_area k).free_list
        ≡ in_block k p q + covered k q (s.free_area k).free_list =
      rw (list-add_block k p s) refl in
    omega (arith, change, list)

pub reserved-add_block :
    (k p q : ℕ) (s : Buddy) → ((add_block k p s).pages q).reserved ≡ (s.pages q).reserved
unfolding add_block
reserved-add_block k p q s = ground arith

pub in_block-cases : (k p q : ℕ) → (in_block k p q ≡ 0) ⊎ (in_block k p q ≡ 1)
in_block-cases k p q = elim (Bool-cases (leb p q && ltb q (p + 2 ^ k))) [
  | inl e ↦ inr (rw e refl)
  | inr e ↦ inl (rw e refl)
]

-- The removal of a block: `unlink_block`, and ClearPageProperty.
abbrev pub remove_block : (k p : ℕ) → Buddy → Buddy
remove_block k p s = clear_property p (unlink_block k p s)

pub IsPlaced-same :
    (k p : ℕ) (s t : Buddy)
    → t.mem_base ≡ s.mem_base
    → ((q : ℕ) → (t.pages q).zone_num ≡ (s.pages q).zone_num)
    → IsPlaced k p s
    → IsPlaced k p t
IsPlaced-same k p s t e f (z, m, at, zone) = (z, m, rw e at, λ q i. f q ∙ zone q i)

pub zone-add_block :
    (k p q : ℕ) (s : Buddy) → ((add_block k p s).pages q).zone_num ≡ (s.pages q).zone_num
unfolding add_block
zone-add_block k p q s = ground arith

pub zone-remove_block :
    (k p q : ℕ) (s : Buddy) → ((remove_block k p s).pages q).zone_num ≡ (s.pages q).zone_num
unfolding clear_property unlink_block
zone-remove_block k p q s = ground arith

-- The blocks of the lists of `add_block`: the new one and those of before.
add_block-IsPlaced :
    (k p j q : ℕ) (s : Buddy)
    → IsBuddy s
    → IsPlaced k p s
    → j < 11
    → 0 < count q ((add_block k p s).free_area j).free_list
    → IsPlaced j q s
unfolding add_block count
add_block-IsPlaced k p j q s b here h c = elim (Bool-cases (j == k)) [
  | inr e ↦ b.placed j q h (ground (arith, e))
  | inl e ↦ elim (Bool-cases (q == p)) [
    | inl f ↦
        let same_k : j ≡ k = ground arith in
        let same_p : q ≡ p = ground arith in rw (same_k, same_p) here
    | inr f ↦ let same_k : j ≡ k = ground arith in b.placed j q h (ground (arith, e, f))
  ]
]

-- A block of pages in no free block becomes free: every free page is still in one block, and the
-- lists and their counts are right.
pub add_block-IsBuddy :
    (k p : ℕ) (s : Buddy)
    → k < 11
    → IsBuddy s
    → ((q : ℕ) → 0 < in_block k p q → covers s q ≡ 0)
    → ((q : ℕ) → 0 < in_block k p q → (s.pages q).reserved ≡ false)
    → IsPlaced k p s
    → IsBuddy (add_block k p s)
unfolding add_block count
add_block-IsBuddy k p s h b empty clean here =
    let none_at : covers s p ≡ 0 = empty p (omega (arith, in_block_self k p)) in
    let bare = no_property s p b none_at in
    record {
      counted = λ j q i. ground (arith, b.counted j q i, b.counted j p i, bare);
      numbered = λ j i. elim (Bool-cases (j == k)) [
        | inl e ↦ rw e (omega (arith, b.numbered k h))
        | inr e ↦ rw e (b.numbered j i)
      ];
      valued = λ q e. ground (arith, b.valued q);
      disjoint = λ q. elim (in_block-cases k p q) [
        | inl e ↦ omega (arith, covers-add_block k p q s h, b.disjoint q)
        | inr e ↦ omega (arith, covers-add_block k p q s h, empty q (omega arith))
      ];
      usable = λ q u. reserved-add_block k p q s ∙ elim (in_block-cases k p q) [
        | inl e ↦ b.usable q (omega (arith, covers-add_block k p q s h))
        | inr e ↦ clean q (omega arith)
      ];
      placed = λ j q i c.
          IsPlaced-same j q s (add_block k p s) refl (λ r. zone-add_block k p r s)
            (add_block-IsPlaced k p j q s b here i c);
    }

list-remove_block :
    (k p : ℕ) (s : Buddy)
    → ((remove_block k p s).free_area k).free_list ≡ erase p (s.free_area k).free_list
unfolding unlink_block clear_property
list-remove_block k p s = rw (==_refl k) refl

pub covers-remove_block :
    (k p q : ℕ) (s : Buddy)
    → k < 11
    → 0 < count p (s.free_area k).free_list
    → covers (remove_block k p s) q + in_block k p q ≡ covers s q
unfolding unlink_block clear_property covered
covers-remove_block k p q s h c =
    let change = covers-change k q s (remove_block k p s) h (λ j e. rw e refl) in
    let list : covered k q ((remove_block k p s).free_area k).free_list
        ≡ covered k q (erase p (s.free_area k).free_list) =
      rw (list-remove_block k p s) refl in
    let erased =
      covered-erase k p q (s.free_area k).free_list (mem_of_count p (s.free_area k).free_list c) in
    omega (arith, change, list, erased)

pub reserved-remove_block :
    (k p q : ℕ) (s : Buddy) → ((remove_block k p s).pages q).reserved ≡ (s.pages q).reserved
unfolding clear_property unlink_block
reserved-remove_block k p q s = ground arith

pub remove_block-IsBuddy :
    (k p : ℕ) (s : Buddy)
    → k < 11
    → IsBuddy s
    → 0 < count p (s.free_area k).free_list
    → IsBuddy (remove_block k p s)
unfolding clear_property unlink_block
remove_block-IsBuddy k p s h b c =
    let there = mem_of_count p (s.free_area k).free_list c in
    record {
      counted = λ j q i. ground (
        arith,
        b.counted j q i,
        b.counted k p h,
        count-erase q p (s.free_area k).free_list there,
      );
      numbered = λ j i. elim (Bool-cases (j == k)) [
        | inl e ↦
            rw e (omega (arith, b.numbered k h, length-erase p (s.free_area k).free_list there))
        | inr e ↦ rw e (b.numbered j i)
      ];
      valued = λ q e. ground (arith, b.valued q);
      disjoint = λ q. omega (arith, covers-remove_block k p q s h c, b.disjoint q);
      usable = λ q u.
          reserved-remove_block k p q s
          ∙ b.usable q (omega (arith, covers-remove_block k p q s h c));
      placed = λ j q i d.
          IsPlaced-same j q s (remove_block k p s) refl (λ r. zone-remove_block k p r s)
            (b.placed j q i (ground (arith, d, count-erase q p (s.free_area k).free_list there)));
    }

-- The pages of a block that is removed are in no free block, and none is reserved.
pub remove_block-empty :
    (k p q : ℕ) (s : Buddy)
    → k < 11
    → IsBuddy s
    → 0 < count p (s.free_area k).free_list
    → 0 < in_block k p q
    → (covers (remove_block k p s) q ≡ 0) × (((remove_block k p s).pages q).reserved ≡ false)
remove_block-empty k p q s h b c i = (
  omega (arith, covers-remove_block k p q s h c, b.disjoint q),
  reserved-remove_block k p q s ∙ b.usable q (omega (arith, covers-remove_block k p q s h c)),
)

-- The two halves of a block.
pub in_block-halves : (k p q : ℕ) → in_block (suc k) p q ≡ in_block k p q + in_block k (p + 2 ^ k) q
in_block-halves k p q = ground arith
