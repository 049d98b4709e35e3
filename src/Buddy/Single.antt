-- ===== src/Buddy/Single.antt =====
-- A single page, asked for and given back: what else of the pages stays as it was.
use mips.Base.{
  ℕ, zero, suc, ◌+◌, ◌-◌, ◌^◌, ◌<◌, ◌≤◌, ◌==◌, ◌≡◌, refl, ap, ◌∙◌, false, Option, none, some, [],
  arith, inl, inr, Bool-cases, Option-cases, ==_refl, one_if, sym, subst, if◌then◌else◌, bit_and,
  bit_xor,
}
use mips.Buddy.{
  Buddy, add_block, unlink_block, clear_property, split, first_block, alloc_from,
  buddy_alloc_pages_sub, buddy_alloc_pages, give_rest, getorder, order_from, merge, page_is_buddy,
  idx2page, put_page, page2idx, reset_pages, buddy_free_pages_sub, buddy_free_pages,
  buddy_nr_free_pages,
}
use mips.Buddy.Sums.{sum_below-zero}
use mips.Buddy.Blocks.{covers, covered, in_block, IsBuddy}
use mips.Buddy.Frame.{IsFramed}
use mips.Buddy.Alloc.{IsAllocated, IsTakenFrom, buddy_alloc_pages_sub-IsAllocated}
use mips.Buddy.Range.{in_range, IsHeld}
use mips.Buddy.Release.{buddy_free_pages-IsReleased}

-- The reference counts and the number of pages, as before.
abbrev pub IsRefKept : (s s' : Buddy) → Type 0
IsRefKept s s' = ((q : ℕ) → (s'.pages q).ref ≡ (s.pages q).ref) × (s'.npage ≡ s.npage)

add_block-ref : (k p q : ℕ) (s : Buddy) → ((add_block k p s).pages q).ref ≡ (s.pages q).ref
unfolding add_block
add_block-ref k p q s = ground arith

add_block-npage : (k p : ℕ) (s : Buddy) → (add_block k p s).npage ≡ s.npage
unfolding add_block
add_block-npage k p s = refl

remove-ref :
    (k p q : ℕ) (s : Buddy)
    → ((clear_property p (unlink_block k p s)).pages q).ref ≡ (s.pages q).ref
unfolding clear_property unlink_block
remove-ref k p q s = ground arith

split-IsRefKept : (more order p : ℕ) (s : Buddy) → IsRefKept s (split more order p s)
unfolding split
split-IsRefKept zero order p s = (λ q. refl, refl)
split-IsRefKept (suc more) order p s =
    let j = order + more in
    let r = split-IsRefKept more order p (add_block j (p + 2 ^ j) s) in
    (λ q. r.0 q ∙ add_block-ref j (p + 2 ^ j) q s, r.1 ∙ add_block-npage j (p + 2 ^ j) s)

clear-ref : (p q : ℕ) (s : Buddy) → ((clear_property p s).pages q).ref ≡ (s.pages q).ref
unfolding clear_property
clear-ref p q s = ground arith

-- A block of a list is taken and split.
take-IsRefKept :
    (more cur order p : ℕ) (s : Buddy)
    → IsRefKept s (clear_property p (split more order p (unlink_block cur p s)))
unfolding unlink_block clear_property
take-IsRefKept more cur order p s =
    let r = split-IsRefKept more order p (unlink_block cur p s) in
    (λ q. clear-ref p q (split more order p (unlink_block cur p s)) ∙ r.0 q, r.1)

alloc_from-IsRefKept :
    (left cur order : ℕ) (s : Buddy) → IsRefKept s (alloc_from left cur order s).1
unfolding alloc_from
alloc_from-IsRefKept zero cur order s = (λ q. refl, refl)
alloc_from-IsRefKept (suc left) cur order s =
    elim (Option-cases (first_block (s.free_area cur).free_list)) [
      | inl e ↦ rw (alloc_from, e) (alloc_from-IsRefKept left (cur + 1) order s)
      | inr (p, e) ↦ rw (alloc_from, e) (take-IsRefKept (cur - order) cur order p s)
    ]

remove-IsRefKept : (k p : ℕ) (s : Buddy) → IsRefKept s (clear_property p (unlink_block k p s))
unfolding clear_property unlink_block
remove-IsRefKept k p s = (λ q. remove-ref k p q s, refl)

IsRefKept-trans : (s t u : Buddy) → IsRefKept s t → IsRefKept t u → IsRefKept s u
IsRefKept-trans s t u a b = (λ q. b.0 q ∙ a.0 q, b.1 ∙ a.1)

merge-IsRefKept : (left order z idx : ℕ) (s : Buddy) → IsRefKept s (merge left order z idx s)
unfolding merge
merge-IsRefKept zero order z idx s =
    (λ q. add_block-ref order (idx2page z idx s) q s, add_block-npage order (idx2page z idx s) s)
merge-IsRefKept (suc left) order z idx s =
    let other = idx2page z (bit_xor idx (2 ^ order)) s in
    elim (Bool-cases (page_is_buddy other order z s)) [
      | inr e ↦
          rw (merge, e)
            (
              λ q. add_block-ref order (idx2page z idx s) q s,
              add_block-npage order (idx2page z idx s) s,
            )
      | inl e ↦
          rw (merge, e)
            (IsRefKept-trans s (clear_property other (unlink_block order other s))
              (merge left (suc order) z (bit_and idx (bit_xor idx (2 ^ order)))
                (clear_property other (unlink_block order other s)))
              (remove-IsRefKept order other s)
              (merge-IsRefKept left (suc order) z (bit_and idx (bit_xor idx (2 ^ order)))
                (clear_property other (unlink_block order other s))))
    ]

-- What one page more and one page less leave of the others.
pub record IsGiven (p : ℕ) (s s' : Buddy) : Type 0 where
  pub buddy : IsBuddy s'
  pub was_free : covers s p ≡ 1
  pub cover : (q : ℕ) → covers s' q + one_if (q == p) ≡ covers s q
  pub total : buddy_nr_free_pages s' + 1 ≡ buddy_nr_free_pages s
  pub frame : IsFramed s s'
  pub kept : IsRefKept s s'
  pub above : s'.mem_base (s'.pages p).zone_num ≤ p

pub record IsTakenBack (p : ℕ) (s s' : Buddy) : Type 0 where
  pub buddy : IsBuddy s'
  pub cover : (q : ℕ) → covers s' q ≡ covers s q + one_if (q == p)
  pub total : buddy_nr_free_pages s' ≡ buddy_nr_free_pages s + 1
  pub frame : IsFramed s s'
  pub refs : (q : ℕ) → (s'.pages q).ref ≡ (if q == p then 0 else (s.pages q).ref)
  pub bound : s'.npage ≡ s.npage

one_page : (p q : ℕ) → in_block 0 p q ≡ one_if (q == p)
one_page p q = ground arith

-- What a request of one page gives.
abbrev pub IsPage : Buddy → Option ℕ × Buddy → Type 0
IsPage s (none, s') = (s' ≡ s) × ((q : ℕ) → covers s q ≡ 0)
IsPage s (some p, s') = IsGiven p s s'

alloc_one :
    (s s1 : Buddy) (got : Option ℕ)
    → buddy_alloc_pages_sub 0 s ≡ some (got, s1)
    → buddy_alloc_pages 1 s ≡ some (got, s1)
unfolding buddy_alloc_pages getorder order_from give_rest
alloc_one s s1 none e = rw e refl
alloc_one s s1 (some p) e = rw e refl

-- The state with the descriptor of a page that is freed.
reset : ℕ → Buddy → Buddy
reset p s =
    put_page p
      (record (s.pages p) { ref = 0; reserved = false; has_property = false; other_flags = 0 }) s

free_one-merge :
    (p : ℕ) (s s' : Buddy)
    → buddy_free_pages p 1 s ≡ some s'
    → merge 10 0 ((reset p s).pages p).zone_num (page2idx p s) (reset p s) ≡ s'
unfolding buddy_free_pages buddy_free_pages_sub reset_pages reset
free_one-merge p s s' h = ground (arith, h)

free_one :
    (p : ℕ) (s s' : Buddy)
    → buddy_free_pages p 1 s ≡ some s'
    → ((q : ℕ) → (s'.pages q).ref ≡ (if q == p then 0 else (s.pages q).ref)) × (s'.npage ≡ s.npage)
unfolding reset
free_one p s s' h =
    let e = free_one-merge p s s' h in
    let r = merge-IsRefKept 10 0 ((reset p s).pages p).zone_num (page2idx p s) (reset p s) in
    rw (sym e) (λ q. r.0 q ∙ ground arith, r.1)

alloc_sub-IsRefKept :
    (s s1 : Buddy) (got : Option ℕ) → buddy_alloc_pages_sub 0 s ≡ some (got, s1) → IsRefKept s s1
unfolding buddy_alloc_pages_sub
alloc_sub-IsRefKept s s1 got h =
    let e : alloc_from 11 0 0 s ≡ (got, s1) = cc in
    subst (λ (r : Option ℕ × Buddy). IsRefKept s r.1) e (alloc_from-IsRefKept 11 0 0 s)

sole-IsGiven :
    (p : ℕ) (s s1 : Buddy) → IsBuddy s → IsTakenFrom 0 p s s1 → IsRefKept s s1 → IsGiven p s s1
sole-IsGiven p s s1 b t k =
    let (z, m, at, zone) = t.place in
    let here : (s1.pages p).zone_num ≡ z =
      t.frame.zones p ∙ zone p (rw (one_page p p, ==_refl p) (omega arith)) in
    let base : s1.mem_base z ≡ s.mem_base z = rw t.frame.bases refl in
    let one : in_block 0 p p ≡ 1 = one_page p p ∙ rw (==_refl p) refl in
    record {
      buddy = t.buddy;
      was_free = omega (arith, t.cover p, b.disjoint p, one);
      cover = λ q. omega (arith, t.cover q, one_page p q);
      total = t.total;
      frame = t.frame;
      kept = k;
      above = rw here (omega (arith, at, base));
    }

no_cover :
    (s : Buddy) → ((k : ℕ) → k < 11 → (s.free_area k).free_list ≡ []) → (q : ℕ) → covers s q ≡ 0
unfolding covers covered
no_cover s empty q =
    sum_below-zero 11 (λ k. covered k q (s.free_area k).free_list) (λ k h. rw (empty k h) refl)

-- With every free page in one free block, a request of one page passes its assertions and returns.
-- It gives a page that was free and is so no longer, or none, and then no page was free.
pub alloc_one-IsPage :
    (s : Buddy) → IsBuddy s → (r : Option ℕ × Buddy) × (buddy_alloc_pages 1 s ≡ some r) × IsPage s r
alloc_one-IsPage s b =
    let (r, run, a) = buddy_alloc_pages_sub-IsAllocated 0 s (omega arith) b in answer r run a
  where
    answer :
        (r : Option ℕ × Buddy)
        → buddy_alloc_pages_sub 0 s ≡ some r
        → IsAllocated 0 s r
        → (r : Option ℕ × Buddy) × (buddy_alloc_pages 1 s ≡ some r) × IsPage s r
    answer (none, s1) run (same, empty) =
        ((none, s1), alloc_one s s1 none run, (same, no_cover s (λ k h. empty k (omega arith) h)))
    answer (some p, s1) run t = (
      (some p, s1),
      alloc_one s s1 (some p) run,
      sole-IsGiven p s s1 b t (alloc_sub-IsRefKept s s1 (some p) run),
    )

-- A page in no free block is given back.
pub free_one-IsTakenBack :
    (p : ℕ) (s : Buddy)
    → IsBuddy s
    → covers s p ≡ 0
    → (s.pages p).reserved ≡ false
    → s.mem_base (s.pages p).zone_num ≤ p
    → (s' : Buddy) × (buddy_free_pages p 1 s ≡ some s') × IsTakenBack p s s'
free_one-IsTakenBack p s b out clean above =
    let held : IsHeld (s.pages p).zone_num p 1 s = record {
      taken = λ q i. subst (λ x. covers s x ≡ 0) (self q i) out;
      clean = λ q i. subst (λ x. (s.pages x).reserved ≡ false) (self q i) clean;
      zone = λ q i. ap (λ x. (s.pages x).zone_num) (sym (self q i));
    } in
    let (s', run, r) =
      buddy_free_pages-IsReleased p 1 (s.pages p).zone_num s (omega arith) (omega arith) b held
        above in
    let (refs, bound) = free_one p s s' run in
    (
      s',
      run,
      record {
        buddy = r.buddy;
        cover = λ q. r.cover q ∙ ap (λ n. covers s q + n) (one_in_range q);
        total = r.total;
        frame = record { bases = r.bases; zones = r.zones; reserves = r.reserves };
        refs = refs;
        bound = bound;
      },
    )
  where
    one_in_range : (q : ℕ) → in_range p 1 q ≡ one_if (q == p)
    one_in_range q = ground arith

    self : (q : ℕ) → 0 < in_range p 1 q → p ≡ q
    self q i = ground arith
