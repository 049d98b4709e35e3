-- ===== src/Base/Lists.antt =====
-- Lists measured and indexed by native numbers, under the library's names.
use Prim.Native.Nat.{ℕ, zero, suc, ◌+◌, ◌≤◌, ◌<◌}
use mathlib.Core.Path.{◌≡◌, refl, ap}
use mathlib.Core.Logic.{◌≢◌}
use mathlib.Core.Bool.{Bool, true, false, ◌||◌}
use mathlib.Core.List.{List, [], ◌∷◌, ◌++◌}
use mathlib.Core.Option.{Option, none, some}
use native.Mathlib.Omega.{arith}
use mips.Base.Tests.{◌==◌, ==_refl, if◌then◌else◌, one_if}

module _ {ℓ} {A : Type ℓ} where
  abbrev pub length : List A → ℕ
  length [] = 0
  length (x ∷ xs) = suc (length xs)

  abbrev pub get_elem? : List A → ℕ → Option A
  get_elem? [] i = none
  get_elem? (x ∷ xs) zero = some x
  get_elem? (x ∷ xs) (suc i) = get_elem? xs i

  -- A write out of bounds changes nothing.
  abbrev pub set : List A → ℕ → A → List A
  set [] i v = []
  set (x ∷ xs) zero v = v ∷ xs
  set (x ∷ xs) (suc i) v = x ∷ set xs i v

  abbrev pub take : ℕ → List A → List A
  take zero xs = []
  take (suc n) [] = []
  take (suc n) (x ∷ xs) = x ∷ take n xs

  pub length-append : (xs ys : List A) → length (xs ++ ys) ≡ length xs + length ys
  length-append [] ys = omega arith
  length-append (x ∷ xs) ys = omega (arith, length-append xs ys)

module _ {ℓ} {A : Type ℓ} where
  pub length-set : (xs : List A) (i : ℕ) (v : A) → length (set xs i v) ≡ length xs
  length-set [] i v = refl
  length-set (x ∷ xs) zero v = refl
  length-set (x ∷ xs) (suc i) v = ap suc (length-set xs i v)

  pub get_elem?-set_self :
      (xs : List A) (i : ℕ) (v : A) → i < length xs → get_elem? (set xs i v) i ≡ some v
  get_elem?-set_self [] i v h = elim h [ ]
  get_elem?-set_self (x ∷ xs) zero v h = refl
  get_elem?-set_self (x ∷ xs) (suc i) v h = get_elem?-set_self xs i v (omega arith)

  pub get_elem?-set_ne :
      (xs : List A) (i j : ℕ) (v : A) → i ≢ j → get_elem? (set xs i v) j ≡ get_elem? xs j
  get_elem?-set_ne [] i j v h = refl
  get_elem?-set_ne (x ∷ xs) zero zero v h = absurd (h refl)
  get_elem?-set_ne (x ∷ xs) zero (suc j) v h = refl
  get_elem?-set_ne (x ∷ xs) (suc i) zero v h = refl
  get_elem?-set_ne (x ∷ xs) (suc i) (suc j) v h = get_elem?-set_ne xs i j v (λ e. h (ap suc e))

-- A predicate on every element.
abbrev pub All {ℓ κ} : {A : Type ℓ} → (A → Type κ) → List A → Type κ
All P [] = Unit
All P (x ∷ xs) = P x × All P xs

-- Lists of numbers: the addresses of linked objects.
unfoldable pub mem : ℕ → List ℕ → Bool
mem p [] = false
mem p (q ∷ l) = (p == q) || mem p l

unfoldable pub count : ℕ → List ℕ → ℕ
count p [] = 0
count p (q ∷ l) = one_if (p == q) + count p l

-- Unlinks the first occurrence.
unfoldable pub erase : ℕ → List ℕ → List ℕ
erase p [] = []
erase p (q ∷ l) = if p == q then l else q ∷ erase p l

pub count-append : (p : ℕ) (xs ys : List ℕ) → count p (xs ++ ys) ≡ count p xs + count p ys
unfolding count
count-append p [] ys = omega arith
count-append p (x ∷ xs) ys = omega (arith, count-append p xs ys)

pub count-erase :
    (p q : ℕ) (xs : List ℕ) → mem q xs ≡ true → count p (erase q xs) + one_if (p == q) ≡ count p xs
unfolding count erase mem
count-erase p q [] h = ground arith
count-erase p q (x ∷ xs) h = ground (arith, count-erase p q xs)

pub length-erase : (q : ℕ) (xs : List ℕ) → mem q xs ≡ true → length (erase q xs) + 1 ≡ length xs
unfolding erase mem
length-erase q [] h = ground arith
length-erase q (x ∷ xs) h = ground (arith, length-erase q xs)

pub mem_of_count : (p : ℕ) (xs : List ℕ) → 0 < count p xs → mem p xs ≡ true
unfolding count mem
mem_of_count p [] h = absurd (omega arith)
mem_of_count p (x ∷ xs) h = ground (arith, mem_of_count p xs)

pub count_of_not_mem : (p : ℕ) (xs : List ℕ) → mem p xs ≡ false → count p xs ≡ 0
unfolding count mem
count_of_not_mem p [] h = refl
count_of_not_mem p (x ∷ xs) h = ground (arith, count_of_not_mem p xs)

pub not_mem_of_count : (p : ℕ) (xs : List ℕ) → count p xs ≡ 0 → mem p xs ≡ false
unfolding count mem
not_mem_of_count p [] h = refl
not_mem_of_count p (x ∷ xs) h = ground (arith, not_mem_of_count p xs)

pub count_of_mem : (p : ℕ) (xs : List ℕ) → mem p xs ≡ true → 0 < count p xs
unfolding count mem
count_of_mem p [] h = absurd (ground arith)
count_of_mem p (x ∷ xs) h = ground (arith, count_of_mem p xs)

pub mem_head : (p : ℕ) (xs : List ℕ) → mem p (p ∷ xs) ≡ true
unfolding mem
mem_head p xs = rw (==_refl p) refl

pub count-le_length : (p : ℕ) (xs : List ℕ) → count p xs ≤ length xs
unfolding count
count-le_length p [] = omega arith
count-le_length p (x ∷ xs) = ground (arith, count-le_length p xs)
