-- ===== src/Vmm/Insert.antt =====
-- `insert_vma_struct` on a range that no area holds.
use mips.Base.{
  ℕ, ◌+◌, ◌%◌, ◌^◌, ◌<◌, ◌≤◌, ◌≡◌, refl, true, Option, none, some, List, [], ◌∷◌, inl, inr, arith,
  Bool-cases, if◌then◌else◌, ltb,
}
use mips.Vmm.{Vma, Mm, holds, check_vma_overlap, check_prev, insert_behind, insert_vma_struct}
use mips.Vmm.Areas.{area_at, IsSorted, In, CacheIn, IsValid}

abbrev pub IsFree : ℕ → ℕ → List Vma → Type 0
IsFree from to l = (b : ℕ) → from ≤ b → b < to → area_at b l ≡ none

-- The list with `v` added: sorted as before, and only the bytes of `v` are held anew.
pub record IsInserted (lo : ℕ) (v : Vma) (l l' : List Vma) : Type 0 where
  pub sorted : IsSorted lo l'
  pub at : (a : ℕ) → area_at a l' ≡ (if holds a v then some v else area_at a l)
  pub kept : (c : Vma) → In c l → In c l'

-- The area in front is not empty and ends by `lo`, where the list begins.
abbrev EndsBy : Option Vma → ℕ → Type 0
EndsBy none lo = Unit
EndsBy (some p) lo = (p.vm_start < p.vm_end) × (p.vm_end ≤ lo)

check_prev-passes :
    (prev : Option Vma) (v : Vma) (lo : ℕ)
    → EndsBy prev lo
    → lo ≤ v.vm_start
    → v.vm_start < v.vm_end
    → check_prev prev v ≡ some tt
unfolding check_prev check_vma_overlap
check_prev-passes none v lo p h n = refl
check_prev-passes (some p) v lo e h n = ground arith

check_vma_overlap-passes :
    (v w : Vma)
    → v.vm_start < v.vm_end
    → v.vm_end ≤ w.vm_start
    → w.vm_start < w.vm_end
    → check_vma_overlap v w ≡ some tt
unfolding check_vma_overlap
check_vma_overlap-passes v w h k n = ground arith

-- A free range that starts before the first area ends before it.
free-before :
    (v n : Vma) (l : List Vma)
    → IsFree v.vm_start v.vm_end (n ∷ l)
    → v.vm_start < n.vm_start
    → n.vm_start < n.vm_end
    → v.vm_end ≤ n.vm_start
unfolding area_at
free-before v n l f h k = ground (arith, f n.vm_start)

-- One that does not starts behind its end.
free-behind :
    (v n : Vma) (l : List Vma)
    → IsFree v.vm_start v.vm_end (n ∷ l)
    → n.vm_start ≤ v.vm_start
    → v.vm_start < v.vm_end
    → n.vm_end ≤ v.vm_start
unfolding area_at
free-behind v n l f h k = ground (arith, f v.vm_start)

IsFree-tail :
    (v n : Vma) (l : List Vma)
    → IsFree v.vm_start v.vm_end (n ∷ l)
    → n.vm_end ≤ v.vm_start
    → IsFree v.vm_start v.vm_end l
unfolding area_at
IsFree-tail v n l f h b p q = ground (arith, f b p q)

insert_behind-IsInserted :
    (prev : Option Vma) (v : Vma) (l : List Vma) (lo : ℕ)
    → EndsBy prev lo
    → IsSorted lo l
    → lo ≤ v.vm_start
    → v.vm_start < v.vm_end
    → IsFree v.vm_start v.vm_end l
    → (l' : List Vma) × (insert_behind prev v l ≡ some l') × IsInserted lo v l l'
unfolding insert_behind area_at
insert_behind-IsInserted prev v [] lo e s h n f = (
  v ∷ [],
  rw (check_prev-passes prev v lo e h n),
  record { sorted = (h, n, tt); at = λ a. refl; kept = λ c i. absurd i },
)
insert_behind-IsInserted prev v (w ∷ l) lo e s h n f =
    elim (Bool-cases (ltb v.vm_start w.vm_start)) [
      | inl b ↦
          let k = free-before v w l f (ground arith) s.1 in
          (
            v ∷ w ∷ l,
            ground (arith, check_prev-passes prev v lo e h n, check_vma_overlap-passes v w n k s.1),
            record { sorted = (h, n, (k, s.1, s.2)); at = λ a. refl; kept = λ c i. inr i },
          )
      | inr b ↦
          let k = free-behind v w l f (ground arith) n in
          let (l', run, r) =
            insert_behind-IsInserted (some w) v l w.vm_end (s.1, omega arith) s.2 k n
              (IsFree-tail v w l f k) in
          (
            w ∷ l',
            ground (arith, run),
            record {
              sorted = (s.0, s.1, r.sorted);
              at = λ a. ground (arith, r.at a);
              kept = λ c i. elim i [ inl e ↦ inl e | inr j ↦ inr (r.kept c j) ];
            },
          )
    ]

CacheIn-kept :
    (o : Option Vma) (l l' : List Vma) → ((c : Vma) → In c l → In c l') → CacheIn o l → CacheIn o l'
CacheIn-kept none l l' f i = tt
CacheIn-kept (some c) l l' f i = f c i

-- A valid mm accepts an area whose bytes no area holds: no assertion fails, the list stays sorted
-- and free of overlaps, and exactly the bytes of the new area change what holds them.
pub insert_vma_struct-IsInserted :
    (v : Vma) (mm : Mm)
    → IsValid mm
    → v.vm_start < v.vm_end
    → IsFree v.vm_start v.vm_end mm.mmap_list
    → (mm' : Mm) × (insert_vma_struct v mm ≡ some mm')
      × IsValid mm'
      × IsInserted 0 v mm.mmap_list mm'.mmap_list
unfolding insert_vma_struct
insert_vma_struct-IsInserted v mm i n f =
    let (l, run, r) =
      insert_behind-IsInserted none v mm.mmap_list 0 tt i.sorted (omega arith) n f in
    let test : ltb v.vm_start v.vm_end ≡ true = ground arith in
    (
      record mm { mmap_list = l; map_count = (mm.map_count + 1) % 2 ^ 32 },
      rw (test, run),
      record {
        sorted = r.sorted;
        cached = CacheIn-kept mm.mmap_cache mm.mmap_list l r.kept i.cached;
      },
      r,
    )
