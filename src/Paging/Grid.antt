-- ===== src/Paging/Grid.antt =====
-- Sums over the 1024 words of each directory of a list.
use mips.Base.{
  ℕ, suc, ◌+◌, ◌*◌, ◌<◌, ◌≤◌, ◌==◌, ◌≡◌, refl, true, false, List, [], ◌∷◌, length, mem, count, ◌&&◌,
  if◌then◌else◌, arith, inl, inr, Bool-cases, ==_refl, not_mem_of_count,
}
use mips.Buddy.Sums.{sum_below, sum_below-same, sum_below-change, sum_below-le, le-sum_below}

unfoldable pub grid : List ℕ → (ℕ → ℕ → ℕ) → ℕ
grid [] f = 0
grid (d ∷ ds) f = sum_below 1024 (f d) + grid ds f

pub grid-same :
    (ds : List ℕ) (f g : ℕ → ℕ → ℕ)
    → ((d i : ℕ) → mem d ds ≡ true → i < 1024 → g d i ≡ f d i)
    → grid ds g ≡ grid ds f
unfolding grid mem
grid-same [] f g e = refl
grid-same (d ∷ ds) f g e = omega (
  arith,
  sum_below-same 1024 (f d) (g d) (λ i h. e d i (rw (==_refl d) refl) h),
  grid-same ds f g (λ c i m h. e c i (ground arith) h),
)

-- A change at one word of a directory that stands once in the list.
pub grid-change :
    (ds : List ℕ) (d0 i0 : ℕ) (f g : ℕ → ℕ → ℕ)
    → count d0 ds ≡ 1
    → i0 < 1024
    → ((d i : ℕ) → mem d ds ≡ true → i < 1024 → (d == d0 && i == i0) ≡ false → g d i ≡ f d i)
    → grid ds g + f d0 i0 ≡ grid ds f + g d0 i0
unfolding grid mem count
grid-change [] d0 i0 f g c h e = absurd (ground arith)
grid-change (d ∷ ds) d0 i0 f g c h e = elim (Bool-cases (d0 == d)) [
  | inl here ↦
      let same : d ≡ d0 = ground arith in
      let out : mem d0 ds ≡ false = not_mem_of_count d0 ds (ground arith) in
      rw same (
        omega (
          arith,
          sum_below-change 1024 i0 (f d0) (g d0) h
              (λ i l n. e d0 i (rw same (ground arith)) l (rw n (ground arith))),
          grid-same ds f g (λ b i m l. e b i (ground arith) l (apart b i m out)),
        ))
  | inr away ↦ omega (
    arith,
    sum_below-same 1024 (f d) (g d) (λ i l. e d i (rw (==_refl d) refl) l (ground arith)),
    grid-change ds d0 i0 f g (ground arith) h (λ b i m l n. e b i (ground arith) l n),
  )
]
  where
    apart : (b i : ℕ) → mem b ds ≡ true → mem d0 ds ≡ false → (b == d0 && i == i0) ≡ false
    apart b i m out = elim (Bool-cases (b == d0)) [
      | inr n ↦ rw n refl
      | inl n ↦ let same : b ≡ d0 = ground arith in absurd (cc)
    ]

pub le-grid :
    (ds : List ℕ) (d i : ℕ) (f : ℕ → ℕ → ℕ) → mem d ds ≡ true → i < 1024 → f d i ≤ grid ds f
unfolding grid mem
le-grid [] d i f m h = absurd (ground arith)
le-grid (c ∷ ds) d i f m h = elim (Bool-cases (d == c)) [
  | inl here ↦
      let same : c ≡ d = ground arith in rw same (omega (arith, le-sum_below 1024 i (f d) h))
  | inr away ↦ omega (arith, le-grid ds d i f (ground arith) h)
]

-- Two words.
pub le-grid_two :
    (ds : List ℕ) (d0 i0 d i : ℕ) (f : ℕ → ℕ → ℕ)
    → count d0 ds ≡ 1
    → i0 < 1024
    → mem d ds ≡ true
    → i < 1024
    → (d == d0 && i == i0) ≡ false
    → f d0 i0 + f d i ≤ grid ds f
le-grid_two ds d0 i0 d i f c h m l n =
    let g : ℕ → ℕ → ℕ = λ b j. if b == d0 && j == i0 then 0 else f b j in
    let change = grid-change ds d0 i0 f g c h (λ b j _ _ e. rw e refl) in
    let none_there : g d0 i0 ≡ 0 = rw (==_refl d0, ==_refl i0) refl in
    let kept : g d i ≡ f d i = rw n refl in
    omega (arith, change, none_there, kept, le-grid ds d i g m l)

-- No word counts more than `n`.
pub grid-le :
    (ds : List ℕ) (n : ℕ) (f : ℕ → ℕ → ℕ)
    → ((d i : ℕ) → f d i ≤ n)
    → grid ds f ≤ length ds * (1024 * n)
unfolding grid
grid-le [] n f e = omega arith
grid-le (d ∷ ds) n f e =
    omega (arith, sum_below-le 1024 n (f d) (e d), grid-le ds n f e, next (length ds) (1024 * n))
  where
    next : (k b : ℕ) → suc k * b ≡ k * b + b
    next k b = grind arith
