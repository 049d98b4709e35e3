-- ===== src/Vmm/Find.antt =====
-- `find_vma` and its cache.
use mips.Base.{
  ℕ, [], ◌∷◌, ◌<◌, ◌≤◌, ◌≡◌, refl, true, Option, none, some, List, inl, inr, arith, Bool-cases, sym,
  ◌∙◌,
}
use mips.Vmm.{Vma, Mm, first_after, cache_hit, remember, find_vma}
use mips.Vmm.Areas.{
  area_at, IsSorted, CacheIn, IsValid, first_after-In, first_after-holds, is_before, holding,
  area_at-first_after, area_at-gap,
}

cache_hit-first_after :
    (a : ℕ) (c : Option Vma) (l : List Vma)
    → IsSorted 0 l
    → CacheIn c l
    → cache_hit a c ≡ true
    → c ≡ first_after a l
unfolding cache_hit
cache_hit-first_after a none l s i h = ground arith
cache_hit-first_after a (some c) l s i h = sym (first_after-holds a 0 c l s i h)

remember-IsValid :
    (c : Option Vma) (mm : Mm)
    → IsValid mm
    → CacheIn c mm.mmap_list
    → IsValid (remember c mm) × ((remember c mm).mmap_list ≡ mm.mmap_list)
unfolding remember
remember-IsValid none mm v i = (v, refl)
remember-IsValid (some c) mm v i = (record { sorted = v.sorted; cached = i }, refl)

pub find_vma-first_after :
    (a : ℕ) (mm : Mm) → IsValid mm → (find_vma a mm).0 ≡ first_after a mm.mmap_list
unfolding find_vma
find_vma-first_after a mm v = elim (Bool-cases (cache_hit a mm.mmap_cache)) [
  | inl h ↦ rw h (cache_hit-first_after a mm.mmap_cache mm.mmap_list v.sorted v.cached h)
  | inr h ↦ rw h
]

CacheIn-first_after : (a : ℕ) (l : List Vma) (o : Option Vma) → first_after a l ≡ o → CacheIn o l
CacheIn-first_after a l none e = tt
CacheIn-first_after a l (some c) e = first_after-In a c l e

lt-first_after : (a : ℕ) (c : Vma) (l : List Vma) → first_after a l ≡ some c → a < c.vm_end
unfolding first_after
lt-first_after a c [] e = ground arith
lt-first_after a c (v ∷ l) e = ground (arith, lt-first_after a c l)

pub find_vma-IsValid :
    (a : ℕ) (mm : Mm)
    → IsValid mm
    → IsValid (find_vma a mm).1 × ((find_vma a mm).1.mmap_list ≡ mm.mmap_list)
find_vma-IsValid a mm v =
    unfold find_vma in
    remember-IsValid (find_vma a mm).0 mm v
      (CacheIn-first_after a mm.mmap_list (find_vma a mm).0 (sym (find_vma-first_after a mm v)))

-- What `find_vma` promises: its answer is an area of the list that ends behind the address, and
-- no area holds a byte between the address and the answer's start; the areas stay as they are, and the cache stays one of them.
pub record IsFound (a : ℕ) (mm : Mm) (r : Option Vma × Mm) : Type 0 where
  pub hit : area_at a mm.mmap_list ≡ holding a r.0
  pub gap : (b : ℕ) → a ≤ b → is_before b r.0 ≡ true → area_at b mm.mmap_list ≡ none
  pub listed : CacheIn r.0 mm.mmap_list
  pub behind : (c : Vma) → r.0 ≡ some c → a < c.vm_end
  pub valid : IsValid r.1
  pub same : r.1.mmap_list ≡ mm.mmap_list

-- On a valid mm, with or without a cache hit, `find_vma` answers with the area that holds the
-- address, or else the next one behind it, and changes no area.
pub find_vma-IsFound : (a : ℕ) (mm : Mm) → IsValid mm → IsFound a mm (find_vma a mm)
find_vma-IsFound a mm v = record {
  hit = rw (find_vma-first_after a mm v) (area_at-first_after a 0 mm.mmap_list v.sorted);
  gap = λ b h g. area_at-gap a b 0 mm.mmap_list v.sorted h (rw (find_vma-first_after a mm v) at g);
  listed = rw (find_vma-first_after a mm v) (CacheIn-first_after a mm.mmap_list _ refl);
  behind = λ c e. lt-first_after a c mm.mmap_list (sym (find_vma-first_after a mm v) ∙ e);
  valid = (find_vma-IsValid a mm v).0;
  same = (find_vma-IsValid a mm v).1;
}
