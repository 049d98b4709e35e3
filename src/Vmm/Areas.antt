-- ===== src/Vmm/Areas.antt =====
-- What a list of areas means: which area holds an address. The list is sorted and its areas are
-- neither empty nor overlapping.
use mips.Base.{
  ℕ, ◌<◌, ◌≤◌, ◌≡◌, refl, Bool, true, Option, none, some, List, [], ◌∷◌, ltb, leb, if◌then◌else◌,
  ◌⊎◌, inl, inr, arith, Bool-cases,
}
use mips.Vmm.{Vma, Mm, holds, first_after}

-- The area that holds an address.
unfoldable pub area_at : ℕ → List Vma → Option Vma
area_at a [] = none
area_at a (v ∷ l) = if holds a v then some v else area_at a l

-- The areas lie one behind the other, from `lo` on.
abbrev pub IsSorted : ℕ → List Vma → Type 0
IsSorted lo [] = Unit
IsSorted lo (v ∷ l) = (lo ≤ v.vm_start) × (v.vm_start < v.vm_end) × IsSorted v.vm_end l

abbrev pub In : Vma → List Vma → Type 0
In c [] = ⊥
In c (v ∷ l) = (c ≡ v) ⊎ In c l

abbrev pub CacheIn : Option Vma → List Vma → Type 0
CacheIn none l = Unit
CacheIn (some c) l = In c l

pub record IsValid (mm : Mm) : Type 0 where
  pub sorted : IsSorted 0 mm.mmap_list
  pub cached : CacheIn mm.mmap_cache mm.mmap_list

pub area_at-below : (a lo : ℕ) (l : List Vma) → IsSorted lo l → a < lo → area_at a l ≡ none
unfolding area_at
area_at-below a lo [] s h = refl
area_at-below a lo (v ∷ l) s h = ground (arith, area_at-below a v.vm_end l s.2)

pub IsSorted-mono : (lo lo' : ℕ) (l : List Vma) → lo' ≤ lo → IsSorted lo l → IsSorted lo' l
IsSorted-mono lo lo' [] h s = tt
IsSorted-mono lo lo' (v ∷ l) h s = (omega arith, s.1, s.2)

pub le-In : (lo : ℕ) (c : Vma) (l : List Vma) → IsSorted lo l → In c l → lo ≤ c.vm_start
le-In lo c [] s i = absurd i
le-In lo c (v ∷ l) s (inl e) = ground arith
le-In lo c (v ∷ l) s (inr i) = omega (arith, le-In v.vm_end c l s.2 i)

pub first_after-In : (a : ℕ) (c : Vma) (l : List Vma) → first_after a l ≡ some c → In c l
unfolding first_after
first_after-In a c [] e = ground arith
first_after-In a c (v ∷ l) e = elim (Bool-cases (ltb a v.vm_end)) [
  | inl h ↦ inl (ground arith)
  | inr h ↦ inr (first_after-In a c l (ground arith))
]

-- An area of the list that holds the address is the one that the walk stops at.
pub first_after-holds :
    (a lo : ℕ) (c : Vma) (l : List Vma)
    → IsSorted lo l
    → In c l
    → holds a c ≡ true
    → first_after a l ≡ some c
unfolding first_after
first_after-holds a lo c [] s i h = absurd i
first_after-holds a lo c (v ∷ l) s (inl e) h = ground arith
first_after-holds a lo c (v ∷ l) s (inr i) h =
    ground (arith, first_after-holds a v.vm_end c l s.2 i h, le-In v.vm_end c l s.2 i)

-- What an address at or behind `a` and before the area found is held by.
abbrev pub is_before : ℕ → Option Vma → Bool
is_before b none = true
is_before b (some v) = ltb b v.vm_start

abbrev pub holding : ℕ → Option Vma → Option Vma
holding a none = none
holding a (some v) = if leb v.vm_start a then some v else none

pub area_at-first_after :
    (a lo : ℕ) (l : List Vma) → IsSorted lo l → area_at a l ≡ holding a (first_after a l)
unfolding area_at first_after
area_at-first_after a lo [] s = refl
area_at-first_after a lo (v ∷ l) s =
    ground (arith, area_at-first_after a v.vm_end l s.2, area_at-below a v.vm_end l s.2)

pub area_at-gap :
    (a b lo : ℕ) (l : List Vma)
    → IsSorted lo l
    → a ≤ b
    → is_before b (first_after a l) ≡ true
    → area_at b l ≡ none
unfolding area_at first_after
area_at-gap a b lo [] s h g = refl
area_at-gap a b lo (v ∷ l) s h g = elim (Bool-cases (ltb a v.vm_end)) [
  | inl e ↦ ground (arith, area_at-below b v.vm_end l s.2)
  | inr e ↦ ground (arith, area_at-gap a b v.vm_end l s.2 h)
]

pub area_at-In :
    (a lo : ℕ) (c : Vma) (l : List Vma)
    → IsSorted lo l
    → In c l
    → holds a c ≡ true
    → area_at a l ≡ some c
area_at-In a lo c l s i h =
    ground (arith, area_at-first_after a lo l s, first_after-holds a lo c l s i h)

pub nonempty-In : (lo : ℕ) (c : Vma) (l : List Vma) → IsSorted lo l → In c l → c.vm_start < c.vm_end
nonempty-In lo c [] s i = absurd i
nonempty-In lo c (v ∷ l) s (inl e) = ground arith
nonempty-In lo c (v ∷ l) s (inr i) = nonempty-In v.vm_end c l s.2 i
