-- ===== src/Buddy/Fill.antt =====
-- The blocks that `buddy_init_memmap` makes of the pages of a zone.
use mips.Base.{
  ℕ, zero, suc, ◌+◌, ◌-◌, ◌^◌, ◌<◌, ◌≤◌, ◌==◌, ◌≡◌, refl, ◌∙◌, true, false, some, leb, arith, inl,
  inr, Bool-cases,
}
use mips.Buddy.{Buddy, add_block, add_blocks}
use mips.Buddy.Bits.{pow_pos}
use mips.Buddy.Blocks.{in_block, IsBuddy}
use mips.Buddy.Merge.{IsFreed, IsTaken, add_block-IsFreed}
use mips.Buddy.Range.{
  in_range, IsReleased, IsHeld, IsAligned, next-IsAligned, halve-IsAligned, joined-IsReleased,
  nothing-IsReleased,
}

-- A block at the front of a range becomes free.
front-IsHeld :
    (k z p n : ℕ) (s s1 : Buddy)
    → 2 ^ k ≤ n
    → IsFreed k p s s1
    → IsHeld z p n s
    → IsHeld z (p + 2 ^ k) (n - 2 ^ k) s1
front-IsHeld k z p n s s1 fits f held = record {
  taken = λ q i. omega (arith, f.cover q, held.taken q (ground arith), past q i);
  clean = λ q i. f.reserves q ∙ held.clean q (ground arith);
  zone = λ q i. f.zones q ∙ held.zone q (ground arith);
}
  where
    past : (q : ℕ) → 0 < in_range (p + 2 ^ k) (n - 2 ^ k) q → in_block k p q ≡ 0
    past q i = ground arith

add_blocks-stop : (fuel p order : ℕ) (s : Buddy) → add_blocks (suc fuel) p 0 order s ≡ some s
unfolding add_blocks
add_blocks-stop fuel p order s = refl

add_blocks-add :
    (fuel p n order : ℕ) (s : Buddy)
    → (n == 0) ≡ false
    → leb (2 ^ order) n ≡ true
    → add_blocks (suc fuel) p n order s
      ≡ add_blocks fuel (p + 2 ^ order) (n - 2 ^ order) order (add_block order p s)
unfolding add_blocks
add_blocks-add fuel p n order s e fits = rw (add_blocks, e, fits) refl

add_blocks-less :
    (fuel p n order : ℕ) (s : Buddy)
    → (n == 0) ≡ false
    → leb (2 ^ order) n ≡ false
    → add_blocks (suc fuel) p n order s ≡ add_blocks fuel p n (order - 1) s
unfolding add_blocks
add_blocks-less fuel p n order s e large = rw (add_blocks, e, large) refl

held_block : (k z p n : ℕ) (s : Buddy) → 2 ^ k ≤ n → IsHeld z p n s → IsTaken z k p s
unfolding IsTaken
held_block k z p n s fits held q i =
    (held.taken q (ground arith), held.clean q (ground arith), held.zone q (ground arith))

-- An order of which no block fits is not 0, and the next one goes on from it.
lower : (k n fuel : ℕ) → suc n + k < suc fuel → leb (2 ^ k) (suc n) ≡ false → suc n + (k - 1) < fuel
lower zero n fuel i e = absurd (ground arith)
lower (suc k) n fuel i e = omega arith

halved : (b k p n : ℕ) → leb (2 ^ k) (suc n) ≡ false → IsAligned b k p → IsAligned b (k - 1) p
halved b zero p n e a = absurd (ground arith)
halved b (suc k) p n e a =
    let same : suc k - 1 ≡ k = omega arith in rw same (halve-IsAligned b k p a)

pub add_blocks-IsReleased :
    (fuel p n order z : ℕ) (s : Buddy)
    → n + order < fuel
    → order < 11
    → IsBuddy s
    → IsHeld z p n s
    → IsAligned (s.mem_base z) order p
    → (s' : Buddy) × (add_blocks fuel p n order s ≡ some s') × IsReleased p n s s'
add_blocks-IsReleased zero p n order z s h o b held a = absurd (omega arith)
add_blocks-IsReleased (suc fuel) p zero order z s h o b held a =
    (s, add_blocks-stop fuel p order s, nothing-IsReleased p s b)
add_blocks-IsReleased (suc fuel) p (suc n) order z s h o b held a =
    elim (Bool-cases (leb (2 ^ order) (suc n))) [
      | inl fits ↦
          let below : 2 ^ order ≤ suc n = ground arith in
          let s1 = add_block order p s in
          let f =
            add_block-IsFreed z a.0 order p s o b (held_block order z p (suc n) s below held) a.1 in
          let (s', run, r) =
            add_blocks-IsReleased fuel (p + 2 ^ order) (suc n - 2 ^ order) order z s1
              (omega (arith, pow_pos order)) o f.buddy
              (front-IsHeld order z p (suc n) s s1 below f held)
              (rw f.bases (next-IsAligned (s.mem_base z) order p a)) in
          (
            s',
            add_blocks-add fuel p (suc n) order s (ground arith) fits ∙ run,
            joined-IsReleased order p (suc n) s s1 s' below f r,
          )
      | inr large ↦
          let (s', run, r) =
            add_blocks-IsReleased fuel p (suc n) (order - 1) z s (lower order n fuel h large)
              (omega arith) b held (halved (s.mem_base z) order p n large a) in
          (s', add_blocks-less fuel p (suc n) order s (ground arith) large ∙ run, r)
    ]
