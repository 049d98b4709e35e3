-- ===== src/Family/Erase.antt =====
-- A process is taken out of the chain of its siblings.
use mips.Base.{
  ℕ, ◌==◌, ◌≡◌, refl, ap, sym, ◌∙◌, true, false, Option, some, List, [], ◌∷◌, erase, mem,
  if◌then◌else◌, arith, inl, inr, Bool-cases, ==_refl, subst,
}
use mips.Proc.{Table}
use mips.Family.Chain.{first, IsChain, IsChain-same, points, points-first, IsDistinct, ne_in}

module _ (t : Table) (p : ℕ) where
  -- The older sibling stands in the list, behind the process.
  pub older_in :
      (young : Option ℕ) (l : List ℕ) (c : ℕ)
      → IsChain t young l
      → mem p l ≡ true
      → points (t p).optr c ≡ true
      → mem c l ≡ true
  unfolding mem
  older_in young [] c a m o = absurd (ground (arith, m))
  older_in young (d ∷ l) c (y, link, a) m o = elim (Bool-cases (p == d)) [
    | inl e ↦
        let same : p ≡ d = ground (arith, e) in
        let next : points (first l) c ≡ true =
          sym (ap (λ x. points x c) (ap (λ x. (t x).optr) same ∙ link)) ∙ o in
        let behind = points-first l c next in ground (arith, behind)
    | inr n ↦
        let behind = older_in (some d) l c a (ground (arith, m, n)) o in ground (arith, behind)
  ]

  -- The younger sibling of a process that is not the first stands in the list.
  pub younger_in :
      (young : Option ℕ) (l : List ℕ) (c : ℕ)
      → IsChain t young l
      → mem p l ≡ true
      → points (t p).yptr c ≡ true
      → points young c ≡ false
      → mem c l ≡ true
  unfolding mem
  younger_in young [] c a m o out = absurd (ground (arith, m))
  younger_in young (d ∷ l) c (y, link, a) m o out = elim (Bool-cases (p == d)) [
    | inl e ↦
        let same : p ≡ d = ground (arith, e) in
        let first_one : points young c ≡ true =
          sym (ap (λ x. points x c) (ap (λ x. (t x).yptr) same ∙ y)) ∙ o in
        absurd (ground (arith, first_one, out))
    | inr n ↦ elim (Bool-cases (c == d)) [
      | inl e ↦ ground (arith, e)
      | inr k ↦
          let behind = younger_in (some d) l c a (ground (arith, m, n)) o k in
          ground (arith, behind)
    ]
  ]

-- The links without the process.
pub record IsUnlinked (p : ℕ) (t u : Table) : Type 0 where
  pub older : (x : ℕ) → (u x).optr ≡ (if points (t p).yptr x then (t p).optr else (t x).optr)
  pub younger : (x : ℕ) → (u x).yptr ≡ (if points (t p).optr x then (t p).yptr else (t x).yptr)

module _ (t u : Table) (p : ℕ) (k : IsUnlinked p t u) where
  -- Siblings that are next to others.
  far :
      (c : ℕ)
      → points (t p).optr c ≡ false
      → points (t p).yptr c ≡ false
      → ((u c).yptr ≡ (t c).yptr) × ((u c).optr ≡ (t c).optr)
  far c o y = (k.younger c ∙ rw o refl, k.older c ∙ rw y refl)

  -- The process is the first one.
  linked_head :
      (l : List ℕ)
      → IsChain t (t p).yptr (p ∷ l)
      → ((c : ℕ) → mem c (p ∷ l) ≡ true → points (t p).yptr c ≡ false)
      → IsDistinct (p ∷ l)
      → IsChain u (t p).yptr l
  unfolding mem
  linked_head [] a out d = tt
  linked_head (o ∷ l) (y, link, (y2, link2, a)) out (d, d2) = (
    k.younger o ∙ rw (link, ==_refl o) refl,
    k.older o ∙ rw (out o (ground (arith, ==_refl o))) link2,
    IsChain-same t u (some o) l
        (λ c m. far c (ap (λ x. points x c) link ∙ ne_in c o l m d2.0) (out c (ground (arith, m))))
        a,
  )

  -- No link of the process leads to `d`.
  apart_older :
      (d : ℕ) (l : List ℕ)
      → IsChain t (some d) l
      → mem p l ≡ true
      → mem d l ≡ false
      → points (t p).optr d ≡ false
  apart_older d l a m n = elim (Bool-cases (points (t p).optr d)) [
    | inr o ↦ o
    | inl o ↦ let behind = older_in t p (some d) l d a m o in absurd (ground (arith, behind, n))
  ]

  apart_younger :
      (d e : ℕ) (l : List ℕ)
      → IsChain t (some e) l
      → mem p l ≡ true
      → mem d l ≡ false
      → (d == e) ≡ false
      → points (t p).yptr d ≡ false
  apart_younger d e l a m n ne = elim (Bool-cases (points (t p).yptr d)) [
    | inr o ↦ o
    | inl o ↦
        let behind = younger_in t p (some e) l d a m o ne in absurd (ground (arith, behind, n))
  ]

  -- The first of the list behind `d`, and the link of `d` to it.
  next_link :
      (d : ℕ) (l : List ℕ)
      → (t d).optr ≡ first l
      → IsChain t (some d) l
      → mem p l ≡ true
      → mem d l ≡ false
      → (u d).optr ≡ first (erase p l)
  unfolding mem erase
  next_link d [] link a m n = absurd (ground (arith, m))
  next_link d (e ∷ l) link (y, link2, a) m n = elim (Bool-cases (p == e)) [
    | inl s ↦
        let same : e ≡ p = ground (arith, s) in
        let here : (t p).yptr ≡ some d = ap (λ x. (t x).yptr) (sym same) ∙ y in
        rw s (k.older d ∙ rw (here, ==_refl d) (ap (λ x. (t x).optr) (sym same) ∙ link2))
    | inr o ↦
        let away =
          apart_younger d e l a (ground (arith, m, o)) (ground (arith, n)) (ground (arith, n)) in
        rw o (k.older d ∙ rw away link)
  ]

  pub erase-IsChain :
      (young : Option ℕ) (l : List ℕ)
      → IsChain t young l
      → mem p l ≡ true
      → IsDistinct l
      → ((c : ℕ) → mem c l ≡ true → points young c ≡ false)
      → IsChain u young (erase p l)
  unfolding mem erase
  erase-IsChain young [] a m d out = absurd (ground (arith, m))
  erase-IsChain young (e ∷ l) (y, link, a) m (d, d2) out = elim (Bool-cases (p == e)) [
    | inl s ↦
        let same : e ≡ p = ground (arith, s) in
        let here : (t p).yptr ≡ young = ap (λ x. (t x).yptr) (sym same) ∙ y in
        rw s (
          subst (λ v. IsChain u v l) here
            (linked_head l
              (
                refl,
                ap (λ x. (t x).optr) (sym same) ∙ link,
                subst (λ x. IsChain t (some x) l) same a,
              )
              (λ c n.
                ap (λ v. points v c) here ∙ out c (subst (λ x. mem c (x ∷ l) ≡ true) (sym same) n))
              (subst (λ x. mem x l ≡ false) same d, d2)))
    | inr o ↦
        let behind : mem p l ≡ true = ground (arith, m, o) in
        rw o (
          k.younger e ∙ rw (apart_older e l a behind d) y,
          next_link e l link a behind d,
          erase-IsChain (some e) l a behind d2 (λ c n. ne_in c e l n d),
        )
  ]
