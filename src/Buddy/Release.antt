-- ===== src/Buddy/Release.antt =====
-- `buddy_free_pages`: both of its loops.
use mips.Base.{
  ℕ, zero, suc, ◌+◌, ◌-◌, ◌*◌, ◌/◌, ◌%◌, ◌^◌, ◌<◌, ◌≤◌, ◌==◌, ◌≡◌, refl, ap, ◌∙◌, true, false,
  Option, some, leb, ltb, arith, inl, inr, Bool-cases, ℕ-cases, ◌>>=◌, bit_and,
}
use mips.Buddy.{
  Buddy, page2idx, buddy_free_pages_sub, free_up, free_down, fit_order, buddy_free_pages,
}
use mips.Buddy.Bits.{and-bit, pow_pos}
use mips.Buddy.Blocks.{IsBuddy}
use mips.Buddy.Range.{
  IsReleased, IsHeld, first_block-IsFreed, joined-IsReleased, nothing-IsReleased, small_order,
  IsAligned, next-IsAligned, fit_order-IsAligned,
}

free_down-stop : (fuel p n order : ℕ) (s : Buddy) → n ≡ 0 → free_down fuel p n order s ≡ some s
unfolding free_down
free_down-stop zero p n order s e = rw (free_down, e) refl
free_down-stop (suc fuel) p n order s e = rw (free_down, e) refl

free_down-step :
    (fuel p n order : ℕ) (s s1 : Buddy)
    → (n == 0) ≡ false
    → buddy_free_pages_sub p (fit_order order n) s ≡ some s1
    → free_down (suc fuel) p n order s
      ≡ free_down fuel
          (p + 2 ^ fit_order order n)
          (n - 2 ^ fit_order order n)
          (fit_order order n)
          s1
unfolding free_down
free_down-step fuel p n order s s1 e run = rw (free_down, e, run) refl

free_down-IsReleased :
    (fuel p n order z : ℕ) (s : Buddy)
    → n ≤ fuel
    → n < 2048
    → IsBuddy s
    → IsHeld z p n s
    → IsAligned (s.mem_base z) order p
    → (s' : Buddy) × (free_down fuel p n order s ≡ some s') × IsReleased p n s s'
free_down-IsReleased fuel p zero order z s h l b held a =
    (s, free_down-stop fuel p zero order s refl, nothing-IsReleased p s b)
free_down-IsReleased zero p (suc n) order z s h l b held a = absurd (omega arith)
free_down-IsReleased (suc fuel) p (suc n) order z s h l b held a =
    let k = fit_order order (suc n) in
    let (fits, aligned) = fit_order-IsAligned order (suc n) (s.mem_base z) p (omega arith) a in
    let (s1, run, f, held1) =
      first_block-IsFreed k aligned.0 z p (suc n) s (small_order k (suc n) fits l) b held fits
        aligned.1 in
    let (s', run', r) =
      free_down-IsReleased fuel (p + 2 ^ k) (suc n - 2 ^ k) k z s1 (omega (arith, pow_pos k))
        (omega arith) f.buddy held1 (rw f.bases (next-IsAligned (s.mem_base z) k p aligned)) in
    (
      s',
      free_down-step fuel p (suc n) order s s1 (ground arith) run ∙ run',
      joined-IsReleased k p (suc n) s s1 s' fits f r,
    )

free_up-stop :
    (left p n order : ℕ) (s : Buddy)
    → leb (2 ^ order) n ≡ false
    → free_up (suc left) p n order s ≡ some (p, n, order, s)
unfolding free_up
free_up-stop left p n order s e = rw (free_up, e) refl

free_up-skip :
    (left p n order : ℕ) (s : Buddy)
    → leb (2 ^ order) n ≡ true
    → leb order 10 ≡ true
    → (bit_and (page2idx p s) (2 ^ order) == 0) ≡ true
    → free_up (suc left) p n order s ≡ free_up left p n (order + 1) s
unfolding free_up
free_up-skip left p n order s e small zero_bit = rw (free_up, e, small, zero_bit) refl

free_up-step :
    (left p n order : ℕ) (s s1 : Buddy)
    → leb (2 ^ order) n ≡ true
    → leb order 10 ≡ true
    → (bit_and (page2idx p s) (2 ^ order) == 0) ≡ false
    → buddy_free_pages_sub p order s ≡ some s1
    → free_up (suc left) p n order s ≡ free_up left (p + 2 ^ order) (n - 2 ^ order) (order + 1) s1
unfolding free_up
free_up-step left p n order s s1 e small one_bit run = rw (free_up, e, small, one_bit, run) refl

-- The bit of an aligned index that the first loop tests, and where the next order goes on.
even_bit : (k m : ℕ) → m % 2 ≡ 0 → (bit_and (m * 2 ^ k) (2 ^ k) == 0) ≡ true
even_bit k m e = rw (and-bit k m, e) (ground arith)

odd_bit : (k m : ℕ) → m % 2 ≡ 1 → (bit_and (m * 2 ^ k) (2 ^ k) == 0) ≡ false
odd_bit k m e = rw (and-bit k m, e) (ground (arith, pow_pos k))

pow_next : (k : ℕ) → 2 ^ (k + 1) ≡ 2 ^ k * 2
pow_next k = let next : k + 1 ≡ suc k = omega arith in rw next (omega arith)

even_up : (k m : ℕ) → m % 2 ≡ 0 → m * 2 ^ k ≡ m / 2 * 2 ^ (k + 1)
even_up k m e =
    let here : m ≡ m / 2 * 2 = omega arith in
    ap (λ n. n * 2 ^ k) here ∙ rw (pow_next k) (grind arith)

odd_up : (k m : ℕ) → m % 2 ≡ 1 → m * 2 ^ k + 2 ^ k ≡ (m / 2 + 1) * 2 ^ (k + 1)
odd_up k m e =
    let here : m ≡ m / 2 * 2 + 1 = omega arith in
    ap (λ n. n * 2 ^ k + 2 ^ k) here ∙ rw (pow_next k) (grind arith)

-- The first loop, and the second one behind it.
abbrev both_loops : (left p n order : ℕ) → Buddy → Option Buddy
both_loops left p n order s = do
  (base1, n1, order1, s1) ← free_up left p n order s
  free_down n1 base1 n1 order1 s1

index_of :
    (p n order m z : ℕ) (s : Buddy)
    → 2 ^ order ≤ n
    → IsHeld z p n s
    → p ≡ s.mem_base z + m * 2 ^ order
    → page2idx p s ≡ m * 2 ^ order
unfolding page2idx
index_of p n order m z s fits held at =
    let here : (s.pages p).zone_num ≡ z = held.zone p (ground (arith, pow_pos order)) in
    rw here (omega (arith, at))

both_loops-IsReleased :
    (left p n order m z : ℕ) (s : Buddy)
    → left + order ≡ 12
    → order ≤ 11
    → n < 2048
    → IsBuddy s
    → IsHeld z p n s
    → p ≡ s.mem_base z + m * 2 ^ order
    → (s' : Buddy) × (both_loops left p n order s ≡ some s') × IsReleased p n s s'
both_loops-IsReleased zero p n order m z s h o l b held at = absurd (omega arith)
both_loops-IsReleased (suc left) p n order m z s h o l b held at =
    elim (Bool-cases (leb (2 ^ order) n)) [
      | inr past ↦
          rw (free_up-stop left p n order s past)
            (free_down-IsReleased n p n order z s (omega arith) l b held (m, at))
      | inl fits ↦
          let below : 2 ^ order ≤ n = ground arith in
          let small = small_order order n below l in
          let index = index_of p n order m z s below held at in
          let fine : leb order 10 ≡ true = ground arith in
          elim (ℕ-cases (m % 2) 0) [
            | inl even ↦
                rw (free_up-skip left p n order s fits fine (rw index (even_bit order m even))) (
                  both_loops-IsReleased left p n (order + 1) (m / 2) z s (omega arith) (omega arith)
                    l b held (omega (arith, at, even_up order m even)))
            | inr odd ↦
                let (s1, run, f, held1) =
                  first_block-IsFreed order m z p n s small b held below at in
                let last : m % 2 ≡ 1 = omega arith in
                let (s', run', r) =
                  both_loops-IsReleased left (p + 2 ^ order) (n - 2 ^ order) (order + 1) (m / 2 + 1)
                    z s1 (omega arith) (omega arith) (omega arith) f.buddy held1
                    (rw f.bases (omega (arith, at, odd_up order m last))) in
                (
                  s',
                  rw
                      (free_up-step left p n order s s1 fits fine (rw index (odd_bit order m last))
                        run)
                      run',
                  joined-IsReleased order p n s s1 s' below f r,
                )
          ]
    ]

-- With every free page in one free block, a range of less than 2 ^ 11 pages of one zone, none of
-- them free or reserved, is given back by `buddy_free_pages`: it passes all its assertions and
-- returns, exactly these pages are free in addition, the count of free pages included, and the
-- invariant is kept, wherever the range begins.
pub buddy_free_pages-IsReleased :
    (p n z : ℕ) (s : Buddy)
    → 0 < n
    → n < 2048
    → IsBuddy s
    → IsHeld z p n s
    → s.mem_base z ≤ p
    → (s' : Buddy) × (buddy_free_pages p n s ≡ some s') × IsReleased p n s s'
unfolding buddy_free_pages
buddy_free_pages-IsReleased p n z s h l b held low =
    let some_pages : ltb 0 n ≡ true = ground arith in
    let at : p ≡ s.mem_base z + (p - s.mem_base z) * 2 ^ 0 = omega arith in
    elim (Bool-cases (n == 1)) [
      | inr more ↦
          let (s', run, r) =
            both_loops-IsReleased 12 p n 0 (p - s.mem_base z) z s refl (omega arith) l b held at in
          (s', rw (some_pages, more) run, r)
      | inl one ↦
          let (s', run, f, held1) =
            first_block-IsFreed 0 (p - s.mem_base z) z p n s (omega arith) b held h at in
          let rest : n - 2 ^ 0 ≡ 0 = ground arith in
          (
            s',
            rw (some_pages, one) run,
            joined-IsReleased 0 p n s s' s' h f
                (rw rest (nothing-IsReleased (p + 2 ^ 0) s' f.buddy)),
          )
    ]
