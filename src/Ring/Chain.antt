-- ===== src/Ring/Chain.antt =====
-- The entries between two of them, by both of their links.
use mips.Base.{
  ℕ, ◌+◌, ◌<◌, ◌≤◌, ◌==◌, ◌≡◌, refl, ◌∙◌, sym, false, List, [], ◌∷◌, ◌++◌, count, arith, ==_refl,
  ==_ne, one_if,
}
use mips.Ring.{Links}

-- From `a` over the entries of `l` to `b`.
unfoldable pub IsChain : Links → (a : ℕ) → List ℕ → (b : ℕ) → Type 0
IsChain h a [] b = (h.next a ≡ b) × (h.prev b ≡ a)
IsChain h a (x ∷ l) b = (h.next a ≡ x) × (h.prev x ≡ a) × IsChain h x l b

-- No entry stands twice.
unfoldable pub IsDistinct : List ℕ → Type 0
IsDistinct l = (x : ℕ) → count x l ≤ 1

pub IsDistinct-tail : (a : ℕ) (l : List ℕ) → IsDistinct (a ∷ l) → IsDistinct l
unfolding IsDistinct count
IsDistinct-tail a l d x = omega (arith, d x)

pub IsDistinct-head : (a : ℕ) (l : List ℕ) → IsDistinct (a ∷ l) → count a l ≡ 0
unfolding IsDistinct count
IsDistinct-head a l d =
    let one : one_if (a == a) ≡ 1 = rw (==_refl a) refl in omega (arith, d a, one)

-- Entries of which only one is in a list are two.
pub apart : (x y : ℕ) (l : List ℕ) → count x l ≡ 0 → 0 < count y l → (y == x) ≡ false
apart x y l h k = ==_ne y x (λ e. absurd (both e))
  where
    both : y ≡ x → ⊥
    both e = let same : count x l ≡ count y l = rw e refl in absurd (omega arith)

pub flip : (x y : ℕ) → (x == y) ≡ false → (y == x) ≡ false
flip x y e = ground (arith, e)

-- Entries of two lists that share none are two.
pub apart_lists :
    (z w : ℕ) (l m : List ℕ)
    → ((u : ℕ) → count u l + count u m ≤ 1)
    → 0 < count z l
    → 0 < count w m
    → (z == w) ≡ false
apart_lists z w l m d i j = ==_ne z w (λ e. absurd (both e))
  where
    both : z ≡ w → ⊥
    both e = let same : count z m ≡ count w m = rw e refl in absurd (omega (arith, d z))

pub join :
    (h : Links) (a x b : ℕ) (l m : List ℕ)
    → IsChain h a l x
    → IsChain h x m b
    → IsChain h a (l ++ (x ∷ m)) b
unfolding IsChain
join h a x b [] m (n, p) d = (n, p, d)
join h a x b (y ∷ l) m (n, p, c) d = (n, p, join h y x b l m c d)

pub cut :
    (h : Links) (a x b : ℕ) (l m : List ℕ)
    → IsChain h a (l ++ (x ∷ m)) b
    → IsChain h a l x × IsChain h x m b
unfolding IsChain
cut h a x b [] m (n, p, c) = ((n, p), c)
cut h a x b (y ∷ l) m (n, p, c) = let (c1, c2) = cut h y x b l m c in ((n, p, c1), c2)

-- Links elsewhere may change.
pub frame :
    (h h' : Links) (a b : ℕ) (l : List ℕ)
    → ((z : ℕ) → 0 < count z (a ∷ l) → h'.next z ≡ h.next z)
    → ((z : ℕ) → 0 < count z (b ∷ l) → h'.prev z ≡ h.prev z)
    → IsChain h a l b
    → IsChain h' a l b
unfolding IsChain count
frame h h' a b [] f g (n, p) = (f a (ground arith) ∙ n, g b (ground arith) ∙ p)
frame h h' a b (x ∷ l) f g (n, p, c) = (
  f a (ground arith) ∙ n,
  g x (ground arith) ∙ p,
  frame h h' x b l (λ z i. f z (ground arith)) (λ z i. g z (ground arith)) c,
)

-- The last link comes from the chain.
pub last-count : (h : Links) (a b : ℕ) (l : List ℕ) → IsChain h a l b → 0 < count (h.prev b) (a ∷ l)
unfolding IsChain count
last-count h a b [] (n, p) = rw p (rw (==_refl a) (omega arith))
last-count h a b (x ∷ l) (n, p, c) = omega (arith, last-count h x b l c)

-- A chain whose last link is led to another entry.
pub redirect :
    (h h' : Links) (a b b' : ℕ) (l : List ℕ)
    → IsDistinct (a ∷ l)
    → IsChain h a l b
    → h'.next (h.prev b) ≡ b'
    → h'.prev b' ≡ h.prev b
    → ((z : ℕ) → 0 < count z (a ∷ l) → (z == h.prev b) ≡ false → h'.next z ≡ h.next z)
    → ((z : ℕ) → 0 < count z l → h'.prev z ≡ h.prev z)
    → IsChain h' a l b'
unfolding IsChain count
redirect h h' a b b' [] d (n, p) e i f g = (rw (sym p) e, i ∙ p)
redirect h h' a b b' (x ∷ l) d (n, p, c) e i f g =
    let last = last-count h x b l c in
    (
      f a (ground arith)
            (flip (h.prev b) a (apart a (h.prev b) (x ∷ l) (IsDistinct-head a (x ∷ l) d) last))
          ∙ n,
      g x (ground arith) ∙ p,
      redirect h h' x b b' l (IsDistinct-tail a (x ∷ l) d) c e i (λ z j k. f z (ground arith) k)
          (λ z j. g z (ground arith)),
    )
