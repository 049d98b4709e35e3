-- ===== src/Buddy/Alloc.antt =====
-- `buddy_alloc_pages_sub`: what it takes from the free blocks.
use mips.Base.{
  subst, sym, ℕ, zero, suc, ◌+◌, ◌-◌, ◌^◌, ◌<◌, ◌≤◌, ◌==◌, ◌≡◌, refl, ap, ◌∙◌, fun_ext, true, false,
  Option, none, some, List, [], ◌∷◌, count, leb, if◌then◌else◌, arith, inl, inr, ◌⊎◌, ℕ-cases,
  ==_refl,
}
use mips.Buddy.{
  Page, Buddy, add_block, unlink_block, clear_property, split, first_block, alloc_from,
  buddy_alloc_pages_sub, buddy_nr_free_pages,
}
use mips.Buddy.Blocks.{
  IsPlaced, IsPlaced-same, covers, in_block, in_block-halves, IsBuddy, add_block-IsBuddy,
  covers-add_block, reserved-add_block, remove_block, remove_block-IsBuddy, covers-remove_block,
  remove_block-empty,
}
use mips.Buddy.Frame.{
  lower-IsPlaced, upper-IsPlaced, IsFramed, IsFramed-trans, add_block-IsFramed,
  remove_block-IsFramed,
}
use mips.Buddy.Bits.{pow_pos}
use mips.Buddy.Count.{nr_free_pages-add_block, nr_free_pages-remove_block}

clear_property-add_block :
    (k b p : ℕ) (s : Buddy)
    → (b == p) ≡ false
    → clear_property p (add_block k b s) ≡ add_block k b (clear_property p s)
unfolding clear_property add_block
clear_property-add_block k b p s h =
    ap
      (λ (f : ℕ → Page). record s {
        pages = f;
        free_area = λ j.
            if j == k
            then record {
              free_list = b ∷ (s.free_area k).free_list;
              nr_free = (s.free_area k).nr_free + 1;
            }
            else s.free_area j;
      })
      (fun_ext (λ q. ground (arith, h)))

clear_property-split :
    (more order p : ℕ) (s : Buddy)
    → clear_property p (split more order p s) ≡ split more order p (clear_property p s)
unfolding split
clear_property-split zero order p s = refl
clear_property-split (suc more) order p s =
    clear_property-split more order p (add_block (order + more) (p + 2 ^ (order + more)) s)
    ∙ ap (split more order p) (
        clear_property-add_block (order + more) (p + 2 ^ (order + more)) p s
          (ground (arith, pow_pos (order + more))))

-- What `split` leaves of the block of 2 ^ k pages at `p`, and of the other pages.
record IsSplit (k order p : ℕ) (s s' : Buddy) : Type 0 where
  pub buddy : IsBuddy s'
  pub cover : (q : ℕ) → covers s' q + in_block order p q ≡ covers s q + in_block k p q
  pub total : buddy_nr_free_pages s' + 2 ^ order ≡ buddy_nr_free_pages s + 2 ^ k
  pub place : IsPlaced order p s
  pub frame : IsFramed s s'

split-IsSplit :
    (more k order p : ℕ) (s : Buddy)
    → k ≡ order + more
    → k < 11
    → IsBuddy s
    → ((q : ℕ) → 0 < in_block k p q → (covers s q ≡ 0) × ((s.pages q).reserved ≡ false))
    → IsPlaced k p s
    → IsSplit k order p s (split more order p s)
unfolding split
split-IsSplit zero k order p s eq h b e here =
    let same : k ≡ order = omega arith in
    rw same (record {
      buddy = b;
      cover = λ q. refl;
      total = refl;
      place = subst (λ j. IsPlaced j p s) same here;
      frame = record { bases = refl; zones = λ q. refl; reserves = λ q. refl };
    })
split-IsSplit (suc more) k order p s eq h b e here =
    let j = order + more in
    let t = add_block j (p + 2 ^ j) s in
    let next : k ≡ suc j = omega arith in
    let whole : IsPlaced (suc j) p s = subst (λ i. IsPlaced i p s) next here in
    let half = λ (q : ℕ). halves k j p q next in
    let added = λ (q : ℕ). covers-add_block j (p + 2 ^ j) q s (omega arith) in
    let b1 =
      add_block-IsBuddy j (p + 2 ^ j) s (omega arith) b (λ q i. (e q (omega (arith, half q))).0)
        (λ q i. (e q (omega (arith, half q))).1) (upper-IsPlaced j p s whole) in
    let e1 : (q : ℕ) → 0 < in_block j p q → (covers t q ≡ 0) × ((t.pages q).reserved ≡ false) =
      λ q i. (
        omega (arith, added q, e q (omega (arith, half q)), apart j p q i),
        reserved-add_block j (p + 2 ^ j) q s ∙ (e q (omega (arith, half q))).1,
      ) in
    let f = add_block-IsFramed j (p + 2 ^ j) s in
    let r =
      split-IsSplit more j order p t refl (omega arith) b1 e1
        (IsPlaced-same j p s t f.bases f.zones (lower-IsPlaced j p s whole)) in
    record {
      buddy = r.buddy;
      cover = λ q. omega (arith, r.cover q, added q, half q);
      total =
          omega (
            arith,
            r.total,
            nr_free_pages-add_block j (p + 2 ^ j) s (omega arith),
            double k j next,
          );
      place = IsPlaced-same order p t s (sym f.bases) (λ q. sym (f.zones q)) r.place;
      frame = IsFramed-trans s t (split more order p t) f r.frame;
    }
  where
    halves : (k j p q : ℕ) → k ≡ suc j → in_block k p q ≡ in_block j p q + in_block j (p + 2 ^ j) q
    halves k j p q e = rw e (in_block-halves j p q)

    double : (k j : ℕ) → k ≡ suc j → 2 ^ k ≡ 2 ^ j + 2 ^ j
    double k j e = rw e (omega arith)

    apart : (j p q : ℕ) → 0 < in_block j p q → in_block j (p + 2 ^ j) q ≡ 0
    apart j p q i = ground arith

-- The block of 2 ^ order pages at `page` was free in `s`, and is no longer in `s'`.
pub record IsTakenFrom (order page : ℕ) (s s' : Buddy) : Type 0 where
  pub buddy : IsBuddy s'
  pub cover : (q : ℕ) → covers s' q + in_block order page q ≡ covers s q
  pub total : buddy_nr_free_pages s' + 2 ^ order ≡ buddy_nr_free_pages s
  pub place : IsPlaced order page s
  pub frame : IsFramed s s'

-- What `buddy_alloc_pages_sub` gives back for a block of 2 ^ order pages.
abbrev pub IsAllocated : (order : ℕ) → Buddy → Option ℕ × Buddy → Type 0
IsAllocated order s (none, s') =
    (s' ≡ s) × ((k : ℕ) → order ≤ k → k < 11 → (s.free_area k).free_list ≡ [])
IsAllocated order s (some page, s') = IsTakenFrom order page s s'

-- The first page of a list of free blocks is taken.
take_block-IsAllocated :
    (more k order p : ℕ) (l : List ℕ) (s : Buddy)
    → k ≡ order + more
    → k < 11
    → IsBuddy s
    → (s.free_area k).free_list ≡ p ∷ l
    → IsAllocated order s (some p, clear_property p (split more order p (unlink_block k p s)))
unfolding count
take_block-IsAllocated more k order p l s eq h b e =
    let c : 0 < count p (s.free_area k).free_list = rw (e, ==_refl p) (omega arith) in
    let empty = λ (q : ℕ). remove_block-empty k p q s h b c in
    let t = remove_block k p s in
    let f = remove_block-IsFramed k p s in
    let r =
      split-IsSplit more k order p (remove_block k p s) eq h (remove_block-IsBuddy k p s h b c)
        (λ q i. empty q i) (IsPlaced-same k p s t f.bases f.zones (b.placed k p h c)) in
    let positive : 0 < (s.free_area k).nr_free = rw (b.numbered k h, e) (omega arith) in
    rw (clear_property-split more order p (unlink_block k p s)) (record {
      buddy = r.buddy;
      cover = λ q. omega (arith, r.cover q, covers-remove_block k p q s h c);
      total = omega (arith, r.total, nr_free_pages-remove_block k p s h positive);
      place = IsPlaced-same order p t s (sym f.bases) (λ q. sym (f.zones q)) r.place;
      frame = IsFramed-trans s t (split more order p t) f r.frame;
    })

List-cases : (l : List ℕ) → (l ≡ []) ⊎ ((p : ℕ) × (k : List ℕ) × (l ≡ p ∷ k))
List-cases [] = inl refl
List-cases (p ∷ l) = inr (p, l, refl)

alloc_from-zero : (cur order : ℕ) (s : Buddy) → alloc_from zero cur order s ≡ (none, s)
unfolding alloc_from
alloc_from-zero cur order s = refl

alloc_from-nil :
    (left cur order : ℕ) (s : Buddy)
    → (s.free_area cur).free_list ≡ []
    → alloc_from (suc left) cur order s ≡ alloc_from left (cur + 1) order s
unfolding alloc_from first_block
alloc_from-nil left cur order s q = rw (alloc_from, ap first_block q) refl

alloc_from-cons :
    (left cur order p : ℕ) (l : List ℕ) (s : Buddy)
    → (s.free_area cur).free_list ≡ p ∷ l
    → alloc_from (suc left) cur order s
      ≡ (some p, clear_property p (split (cur - order) order p (unlink_block cur p s)))
unfolding alloc_from first_block
alloc_from-cons left cur order p l s q = rw (alloc_from, ap first_block q) refl

alloc_from-IsAllocated :
    (left cur order : ℕ) (s : Buddy)
    → order ≤ cur
    → cur + left ≡ 11
    → IsBuddy s
    → ((k : ℕ) → order ≤ k → k < cur → (s.free_area k).free_list ≡ [])
    → IsAllocated order s (alloc_from left cur order s)
alloc_from-IsAllocated zero cur order s h e b none_below =
    rw (alloc_from-zero cur order s) (refl, λ k i j. none_below k i (omega arith))
alloc_from-IsAllocated (suc left) cur order s h e b none_below =
    elim (List-cases (s.free_area cur).free_list) [
      | inl q ↦ rw (alloc_from-nil left cur order s q) (
          alloc_from-IsAllocated left (cur + 1) order s (omega arith) (omega arith) b
            (λ k i j. below k i j q))
      | inr (p, l, q) ↦
          rw (alloc_from-cons left cur order p l s q)
            (take_block-IsAllocated (cur - order) cur order p l s (omega arith) (omega arith) b q)
    ]
  where
    below :
        (k : ℕ)
        → order ≤ k
        → k < cur + 1
        → (s.free_area cur).free_list ≡ []
        → (s.free_area k).free_list ≡ []
    below k i j q = elim (ℕ-cases k cur) [
      | inl same ↦ rw same q
      | inr other ↦ none_below k i (omega arith)
    ]

-- In a state with every free page in one free block, `buddy_alloc_pages_sub` of an order up to
-- MAX_ORDER returns. It gives a block of that order, aligned in a zone, whose pages were free, and
-- exactly these are free no longer, the count of free pages included, with the invariant kept; or it gives no page and
-- changes nothing, and no block of the order or of a higher one was free.
pub buddy_alloc_pages_sub-IsAllocated :
    (order : ℕ) (s : Buddy)
    → order < 11
    → IsBuddy s
    → (r : Option ℕ × Buddy) × (buddy_alloc_pages_sub order s ≡ some r) × IsAllocated order s r
unfolding buddy_alloc_pages_sub
buddy_alloc_pages_sub-IsAllocated order s h b =
    let small : leb order 10 ≡ true = ground arith in
    (
      alloc_from (11 - order) order order s,
      rw small refl,
      alloc_from-IsAllocated (11 - order) order order s (omega arith) (omega arith) b
          (λ k i j. absurd (omega arith)),
    )
