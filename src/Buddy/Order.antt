-- ===== src/Buddy/Order.antt =====
-- `getorder`: the least order with as many pages.
use mips.Base.{
  ℕ, zero, suc, ◌+◌, ◌^◌, ◌<◌, ◌≤◌, ◌≡◌, refl, some, leb, arith, inl, inr, Bool-cases, ℕ-cases,
}
use mips.Buddy.{order_from, getorder}

order_from-least :
    (left order n : ℕ)
    → left + order ≡ 11
    → n ≤ 1024
    → ((k : ℕ) → k < order → 2 ^ k < n)
    → (r : ℕ) × (order_from left order n ≡ some r)
      × (r < 11)
      × (n ≤ 2 ^ r)
      × ((k : ℕ) → k < r → 2 ^ k < n)
unfolding order_from
order_from-least zero order n h l below = absurd (omega (arith, below 10 (omega arith)))
order_from-least (suc left) order n h l below = elim (Bool-cases (leb n (2 ^ order))) [
  | inl fits ↦ (order, rw (order_from, fits) refl, omega arith, ground arith, below)
  | inr small ↦
      let (r, run, small_r, enough, least) =
        order_from-least left (order + 1) n (omega arith) l (λ k i. elim (ℕ-cases k order) [
          | inl e ↦ rw e (ground arith)
          | inr e ↦ below k (omega arith)
        ]) in
      (r, rw (order_from, small) run, small_r, enough, least)
]

-- `getorder` of up to 2 ^ MAX_ORDER pages does not panic, and gives the least order with as many.
pub getorder-least :
    (n : ℕ)
    → n ≤ 1024
    → (r : ℕ) × (getorder n ≡ some r) × (r < 11) × (n ≤ 2 ^ r) × ((k : ℕ) → k < r → 2 ^ k < n)
unfolding getorder
getorder-least n h = order_from-least 11 0 n refl h (λ k i. absurd (omega arith))
