-- ===== src/Buddy/Merge.antt =====
-- The loop of `buddy_free_pages_sub` that merges a block with its buddies.
use mips.Base.{
  ℕ, zero, suc, ◌+◌, ◌*◌, ◌/◌, ◌^◌, ◌<◌, ◌≡◌, refl, ap, sym, ◌∙◌, subst, true, false, count,
  count-le_length, arith, inl, inr, Bool-cases, bit_and, bit_xor,
}
use mips.Buddy.{
  Buddy, add_block, unlink_block, clear_property, page_is_buddy, idx2page, merge,
  buddy_nr_free_pages,
}
use mips.Buddy.Bits.{sibling, xor-block, and-sibling}
use mips.Buddy.Blocks.{
  zone-add_block, zone-remove_block, in_block_self, covers, in_block, in_block-cases, IsBuddy,
  add_block-IsBuddy, covers-add_block, reserved-add_block, remove_block, remove_block-IsBuddy,
  covers-remove_block, remove_block-empty, reserved-remove_block,
}
use mips.Buddy.Count.{nr_free_pages-add_block, nr_free_pages-remove_block}
use mips.Buddy.Pair.{in_block-buddies}

-- The block of 2 ^ k pages at `p` is free in `s'` beside all that was free in `s`.
pub record IsFreed (k p : ℕ) (s s' : Buddy) : Type 0 where
  pub buddy : IsBuddy s'
  pub cover : (q : ℕ) → covers s' q ≡ covers s q + in_block k p q
  pub total : buddy_nr_free_pages s' ≡ buddy_nr_free_pages s + 2 ^ k
  pub bases : s'.mem_base ≡ s.mem_base
  pub zones : (q : ℕ) → (s'.pages q).zone_num ≡ (s.pages q).zone_num
  pub reserves : (q : ℕ) → (s'.pages q).reserved ≡ (s.pages q).reserved

-- The pages of a block are in no free block and in zone `z`, and none is reserved.
unfoldable pub IsTaken : (z k p : ℕ) → Buddy → Type 0
IsTaken z k p s =
    (q : ℕ)
    → 0 < in_block k p q
    → (covers s q ≡ 0) × ((s.pages q).reserved ≡ false) × ((s.pages q).zone_num ≡ z)

pub add_block-IsFreed :
    (z m k p : ℕ) (s : Buddy)
    → k < 11
    → IsBuddy s
    → IsTaken z k p s
    → p ≡ s.mem_base z + m * 2 ^ k
    → IsFreed k p s (add_block k p s)
unfolding IsTaken add_block
add_block-IsFreed z m k p s h b e at = record {
  buddy =
      add_block-IsBuddy k p s h b (λ q i. (e q i).0) (λ q i. (e q i).1)
        (z, m, at, λ q i. (e q i).2);
  cover = λ q. covers-add_block k p q s h;
  total = nr_free_pages-add_block k p s h;
  bases = refl;
  zones = λ q. zone-add_block k p q s;
  reserves = λ q. reserved-add_block k p q s;
}

-- A page that `page_is_buddy` accepts is the first one of a free block.
page_is_buddy-count :
    (p k z : ℕ) (s : Buddy)
    → k < 11
    → IsBuddy s
    → page_is_buddy p k z s ≡ true
    → 0 < count p (s.free_area k).free_list
unfolding page_is_buddy
page_is_buddy-count p k z s h b e = ground (arith, b.counted k p h)

page_is_buddy-zone_num :
    (p k z : ℕ) (s : Buddy) → page_is_buddy p k z s ≡ true → (s.pages p).zone_num ≡ z
unfolding page_is_buddy
page_is_buddy-zone_num p k z s e = ground arith

-- All pages of the block of an accepted page are in its zone.
page_is_buddy-zone :
    (p k z q : ℕ) (s : Buddy)
    → k < 11
    → IsBuddy s
    → page_is_buddy p k z s ≡ true
    → 0 < in_block k p q
    → (s.pages q).zone_num ≡ z
page_is_buddy-zone p k z q s h b e i =
    let (z', m, at, zone) = b.placed k p h (page_is_buddy-count p k z s h b e) in
    zone q i ∙ sym (zone p (omega (arith, in_block_self k p))) ∙ page_is_buddy-zone_num p k z s e

taken :
    (k z m : ℕ) (s : Buddy)
    → k < 11
    → IsBuddy s
    → IsTaken z k (s.mem_base z + m * 2 ^ k) s
    → page_is_buddy (s.mem_base z + sibling m * 2 ^ k) k z s ≡ true
    → IsTaken z
        (suc k)
        (s.mem_base z + m / 2 * 2 ^ suc k)
        (remove_block k (s.mem_base z + sibling m * 2 ^ k) s)
unfolding IsTaken
taken k z m s h b e free q i =
    let other = s.mem_base z + sibling m * 2 ^ k in
    let both = in_block-buddies k (s.mem_base z) m q in
    let c = page_is_buddy-count other k z s h b free in
    let frame = zone-remove_block k other q s in
    elim (in_block-cases k other q) [
      | inr here ↦
          let (none_at, clean) = remove_block-empty k other q s h b c (omega arith) in
          (none_at, clean, frame ∙ page_is_buddy-zone other k z q s h b free (omega arith))
      | inl away ↦
          let (none_at, clean, zone) = e q (omega arith) in
          (
            omega (arith, covers-remove_block k other q s h c),
            reserved-remove_block k other q s ∙ clean,
            frame ∙ zone,
          )
    ]

merge-stop :
    (left k z idx : ℕ) (s : Buddy)
    → page_is_buddy (s.mem_base z + bit_xor idx (2 ^ k)) k z s ≡ false
    → merge (suc left) k z idx s ≡ add_block k (s.mem_base z + idx) s
unfolding merge idx2page
merge-stop left k z idx s e = rw (merge, e) refl

merge-step :
    (left k z idx : ℕ) (s : Buddy)
    → page_is_buddy (s.mem_base z + bit_xor idx (2 ^ k)) k z s ≡ true
    → merge (suc left) k z idx s
      ≡ merge left
          (suc k)
          z
          (bit_and idx (bit_xor idx (2 ^ k)))
          (remove_block k (s.mem_base z + bit_xor idx (2 ^ k)) s)
unfolding merge idx2page
merge-step left k z idx s e = rw (merge, e) refl

-- A block that is freed with its buddy, when that one was free before.
joined :
    (k z m : ℕ) (s s' : Buddy)
    → k < 11
    → IsBuddy s
    → 0 < count (s.mem_base z + sibling m * 2 ^ k) (s.free_area k).free_list
    → IsFreed
        (suc k)
        (s.mem_base z + m / 2 * 2 ^ suc k)
        (remove_block k (s.mem_base z + sibling m * 2 ^ k) s)
        s'
    → IsFreed k (s.mem_base z + m * 2 ^ k) s s'
unfolding clear_property unlink_block
joined k z m s s' h b c r =
    let other = s.mem_base z + sibling m * 2 ^ k in
    let positive : 0 < (s.free_area k).nr_free =
      omega (arith, b.numbered k h, c, count-le_length other (s.free_area k).free_list) in
    record {
      buddy = r.buddy;
      cover = λ q. omega (
        arith,
        r.cover q,
        in_block-buddies k (s.mem_base z) m q,
        covers-remove_block k other q s h c,
      );
      total = omega (arith, r.total, nr_free_pages-remove_block k other s h positive);
      bases = r.bases;
      zones = λ q. r.zones q ∙ zone-remove_block k other q s;
      reserves = λ q. r.reserves q ∙ reserved-remove_block k other q s;
    }

merge-next :
    (left k z m : ℕ) (s : Buddy)
    → page_is_buddy (s.mem_base z + bit_xor (m * 2 ^ k) (2 ^ k)) k z s ≡ true
    → merge (suc left) k z (m * 2 ^ k) s
      ≡ merge left
          (suc k)
          z
          (m / 2 * 2 ^ suc k)
          (remove_block k (s.mem_base z + sibling m * 2 ^ k) s)
merge-next left k z m s free =
    merge-step left k z (m * 2 ^ k) s free
    ∙ ap (λ x. merge left (suc k) z (bit_and (m * 2 ^ k) x) (remove_block k (s.mem_base z + x) s))
        (xor-block k m)
    ∙ ap (λ y. merge left (suc k) z y (remove_block k (s.mem_base z + sibling m * 2 ^ k) s))
        (and-sibling k m)

pub merge-IsFreed :
    (left k z m : ℕ) (s : Buddy)
    → k + left ≡ 10
    → IsBuddy s
    → IsTaken z k (s.mem_base z + m * 2 ^ k) s
    → IsFreed k (s.mem_base z + m * 2 ^ k) s (merge left k z (m * 2 ^ k) s)
unfolding merge idx2page clear_property unlink_block
merge-IsFreed zero k z m s h b e =
    add_block-IsFreed z m k (s.mem_base z + m * 2 ^ k) s (omega arith) b e refl
merge-IsFreed (suc left) k z m s h b e =
    let idx = m * 2 ^ k in
    let p = s.mem_base z + m * 2 ^ k in
    elim (Bool-cases (page_is_buddy (s.mem_base z + bit_xor idx (2 ^ k)) k z s)) [
      | inr apart ↦
          rw (merge-stop left k z idx s apart) (add_block-IsFreed z m k p s (omega arith) b e refl)
      | inl free ↦
          let other = s.mem_base z + sibling m * 2 ^ k in
          let free' : page_is_buddy other k z s ≡ true = rw (sym (xor-block k m)) free in
          let c = page_is_buddy-count other k z s (omega arith) b free' in
          let t = remove_block k other s in
          let r =
            merge-IsFreed left (suc k) z (m / 2) t (omega arith)
              (remove_block-IsBuddy k other s (omega arith) b c)
              (taken k z m s (omega arith) b e free') in
          subst (λ u. IsFreed k p s u) (sym (merge-next left k z m s free))
            (joined k z m s _ (omega arith) b c r)
    ]
