-- ===== src/Buddy/Grant.antt =====
-- The pages that a request takes out of a block, with the rest of the block given back.
use mips.Base.{
  ℕ, zero, suc, ◌+◌, ◌-◌, ◌^◌, ◌<◌, ◌≤◌, ◌≡◌, refl, ◌∙◌, Option, none, some, [], arith, inl, inr,
  ℕ-cases,
}
use mips.Buddy.{Buddy, buddy_free_pages, buddy_nr_free_pages}
use mips.Buddy.Blocks.{covers, in_block, IsBuddy}
use mips.Buddy.Frame.{IsFramed}
use mips.Buddy.Alloc.{IsTakenFrom}
use mips.Buddy.Range.{in_range, IsHeld}
use mips.Buddy.Release.{buddy_free_pages-IsReleased}

pow_mono : (j k : ℕ) → j ≤ k → 2 ^ j ≤ 2 ^ k
pow_mono j zero h = let same : j ≡ 0 = omega arith in rw same (omega arith)
pow_mono j (suc k) h = elim (ℕ-cases j (suc k)) [
  | inl e ↦ rw e (omega arith)
  | inr e ↦ omega (arith, pow_mono j k (omega arith))
]

-- The `n` pages at `page` were free in `s`, and are no longer in `s'`, and can be given back.
pub record IsGranted (n page : ℕ) (s s' : Buddy) : Type 0 where
  pub buddy : IsBuddy s'
  pub cover : (q : ℕ) → covers s' q + in_range page n q ≡ covers s q
  pub total : buddy_nr_free_pages s' + n ≡ buddy_nr_free_pages s
  pub zone : ℕ
  pub held : IsHeld zone page n s'
  pub above : s'.mem_base zone ≤ page

-- What a request gives.
abbrev pub IsAnswered : (n : ℕ) → Buddy → Option ℕ × Buddy → Type 0
IsAnswered n s (none, s') =
    (s' ≡ s) × ((k : ℕ) → n ≤ 2 ^ k → k < 11 → (s.free_area k).free_list ≡ [])
IsAnswered n s (some page, s') = IsGranted n page s s'

-- The pages of a range that `s1` has taken out of free blocks.
range-IsHeld :
    (z p n : ℕ) (s s1 : Buddy)
    → IsBuddy s
    → IsFramed s s1
    → ((q : ℕ) → 0 < in_range p n q → covers s1 q + 1 ≡ covers s q)
    → ((q : ℕ) → 0 < in_range p n q → (s.pages q).zone_num ≡ z)
    → IsHeld z p n s1
range-IsHeld z p n s s1 b f out zone = record {
  taken = λ q i. omega (arith, out q i, b.disjoint q);
  clean = λ q i. f.reserves q ∙ b.usable q (omega (arith, out q i));
  zone = λ q i. f.zones q ∙ zone q i;
}

-- A whole block.
pub whole-IsGranted :
    (k p : ℕ) (s s1 : Buddy) → IsBuddy s → IsTakenFrom k p s s1 → IsGranted (2 ^ k) p s s1
whole-IsGranted k p s s1 b t =
    let (z, m, at, zone) = t.place in
    record {
      buddy = t.buddy;
      cover = t.cover;
      total = t.total;
      zone = z;
      held = range-IsHeld z p (2 ^ k) s s1 b t.frame (λ q i. one q i) zone;
      above = rw t.frame.bases (omega (arith, at));
    }
  where
    one : (q : ℕ) → 0 < in_range p (2 ^ k) q → covers s1 q + 1 ≡ covers s q
    one q i = let here : in_block k p q ≡ 1 = ground arith in omega (arith, t.cover q, here)

-- A part of a block, with the rest of it given back.
pub part-IsGranted :
    (k n p : ℕ) (s s1 : Buddy)
    → k < 11
    → 0 < n
    → n < 2 ^ k
    → IsBuddy s
    → IsTakenFrom k p s s1
    → (s2 : Buddy) × (buddy_free_pages (p + n) (2 ^ k - n) s1 ≡ some s2) × IsGranted n p s s2
part-IsGranted k n p s s1 h pos less b t =
    let (z, m, at, zone) = t.place in
    let base : s1.mem_base z ≡ s.mem_base z = rw t.frame.bases refl in
    let out : (q : ℕ) → in_block k p q ≡ 1 → covers s1 q + 1 ≡ covers s q =
      λ q i. omega (arith, t.cover q, i) in
    let rest =
      range-IsHeld z (p + n) (2 ^ k - n) s s1 b t.frame (λ q i. out q (ground arith))
        (λ q i. zone q (ground arith)) in
    let (s2, run, r) =
      buddy_free_pages-IsReleased (p + n) (2 ^ k - n) z s1 (omega arith)
        (omega (arith, pow_mono k 10 (omega arith))) t.buddy rest (omega (arith, at, base)) in
    let frame : IsFramed s s2 = record {
      bases = r.bases ∙ t.frame.bases;
      zones = λ q. r.zones q ∙ t.frame.zones q;
      reserves = λ q. r.reserves q ∙ t.frame.reserves q;
    } in
    (
      s2,
      run,
      record {
        buddy = r.buddy;
        cover = λ q. omega (arith, r.cover q, t.cover q, parts q);
        total = omega (arith, r.total, t.total);
        zone = z;
        held =
            range-IsHeld z p n s s2 b frame
              (λ q i. omega (arith, r.cover q, t.cover q, parts q, inside q i))
              (λ q i. zone q (ground arith));
        above = rw frame.bases (omega (arith, at));
      },
    )
  where
    parts : (q : ℕ) → in_block k p q ≡ in_range p n q + in_range (p + n) (2 ^ k - n) q
    parts q = ground arith

    inside : (q : ℕ) → 0 < in_range p n q → in_range p n q ≡ 1
    inside q i = ground arith
