-- ===== src/Vmm/Map.antt =====
-- `mm_map`: which requests it grants, and what the mm holds afterwards.
use mips.Base.{
  ℕ, ◌+◌, ◌%◌, ◌^◌, ◌<◌, ◌≤◌, ◌≡◌, refl, Bool, true, false, Option, none, some, inl, inr, arith,
  Bool-cases, if◌then◌else◌, not, is_some, max, ◌∙◌, ◌>>=◌,
}
use mips.Vmm.{
  Vma, Mm, Status, ok, invalid, no_mem, holds, round_down, round_up, user_access, overlaps,
  find_vma, insert_vma_struct, mm_map,
}
use mips.Vmm.Areas.{area_at, IsValid, area_at-In, nonempty-In}
use mips.Vmm.Find.{IsFound, find_vma-IsFound}
use mips.Vmm.Insert.{IsFree, insert_vma_struct-IsInserted}

abbrev pub first_byte : ℕ → ℕ
first_byte addr = round_down addr

abbrev pub end_byte : ℕ → ℕ → ℕ
end_byte addr len = round_up ((addr + len) % 2 ^ 32)

abbrev pub requested : ℕ → ℕ → ℕ → Vma
requested addr len vm_flags = record {
  vm_start = first_byte addr;
  vm_end = end_byte addr len;
  vm_flags = vm_flags;
}

-- The answer of `mm_map` and what it leaves, for the whole pages from `start` to `to`.
pub record IsMapped (got : Bool) (v : Vma) (mm : Mm) (r : Status × Mm) : Type 0 where
  pub valid : IsValid r.1
  pub granted :
      r.0 ≡ ok
      → (a : ℕ) → area_at a r.1.mmap_list ≡ (if holds a v then some v else area_at a mm.mmap_list)
  pub was_free : r.0 ≡ ok → IsFree v.vm_start v.vm_end mm.mmap_list
  pub refused : (r.0 ≡ ok → ⊥) → r.1.mmap_list ≡ mm.mmap_list
  pub taken :
      r.0 ≡ invalid
      → user_access v.vm_start v.vm_end ≡ true
      → (b : ℕ) × (v.vm_start ≤ b) × (b < v.vm_end) × (is_some (area_at b mm.mmap_list) ≡ true)
  pub memory : r.0 ≡ no_mem → got ≡ false
  pub used : r.0 ≡ ok → got ≡ true
  pub access : r.0 ≡ ok → user_access v.vm_start v.vm_end ≡ true

-- An overlap shows at the later of the two starts.
overlap-taken :
    (start to : ℕ) (o : Option Vma) (mm mm' : Mm)
    → IsValid mm
    → IsFound start mm (o, mm')
    → start < to
    → overlaps to o ≡ true
    → (b : ℕ) × (start ≤ b) × (b < to) × (is_some (area_at b mm.mmap_list) ≡ true)
unfolding overlaps
overlap-taken start to none mm mm' v f n h = absurd (ground arith)
overlap-taken start to (some c) mm mm' v f n h =
    let b = max start c.vm_start in
    let e = f.behind c refl in
    let k = nonempty-In 0 c mm.mmap_list v.sorted f.listed in
    (
      b,
      omega arith,
      ground arith,
      rw (area_at-In b 0 c mm.mmap_list v.sorted f.listed (ground arith)),
    )

IsFree-of_no_overlap :
    (start to : ℕ) (o : Option Vma) (mm mm' : Mm)
    → IsFound start mm (o, mm')
    → overlaps to o ≡ false
    → IsFree start to mm.mmap_list
unfolding overlaps
IsFree-of_no_overlap start to none mm mm' f h b p q = f.gap b p refl
IsFree-of_no_overlap start to (some v) mm mm' f h b p q = f.gap b p (ground arith)

refusal :
    (got : Bool) (s : Status) (v : Vma) (mm mm' : Mm)
    → IsValid mm'
    → mm'.mmap_list ≡ mm.mmap_list
    → (s ≡ ok → ⊥)
    → (s ≡ invalid
        → user_access v.vm_start v.vm_end ≡ true
        → (b : ℕ) × (v.vm_start ≤ b) × (b < v.vm_end) × (is_some (area_at b mm.mmap_list) ≡ true))
    → (s ≡ no_mem → got ≡ false)
    → IsMapped got v mm (s, mm')
refusal got s v mm mm' i same ne taken memory = record {
  valid = i;
  granted = λ e. absurd (ne e);
  was_free = λ e. absurd (ne e);
  refused = λ _. same;
  taken = taken;
  memory = memory;
  used = λ e. absurd (ne e);
  access = λ e. absurd (ne e);
}

-- The tests of `mm_map` behind the call of `find_vma`.
mm_map-found :
    (got : Bool) (v : Vma) (mm : Mm) (r : Option Vma × Mm)
    → IsValid mm
    → IsFound v.vm_start mm r
    → user_access v.vm_start v.vm_end ≡ true
    → (res : Status × Mm) × ((if overlaps v.vm_end r.0
          then some (invalid, r.1)
          else if not got
          then some (no_mem, r.1)
          else (do mm2 ← insert_vma_struct v r.1; some (ok, mm2)))
        ≡ some res)
      × IsMapped got v mm res
mm_map-found got v mm (o, mm1) i f acc = elim (Bool-cases (overlaps v.vm_end o)) [
  | inl h ↦ (
    (invalid, mm1),
    rw h,
    refusal got invalid v mm mm1 f.valid f.same (λ e. cc)
        (λ _ _. overlap-taken v.vm_start v.vm_end o mm mm1 i f (ground arith) h) (λ e. cc),
  )
  | inr h ↦ elim (Bool-cases got) [
    | inr g ↦ (
      (no_mem, mm1),
      rw (h, g),
      refusal got no_mem v mm mm1 f.valid f.same (λ e. cc) (λ e _. absurd (ground arith)) (λ _. g),
    )
    | inl g ↦
        let free = IsFree-of_no_overlap v.vm_start v.vm_end o mm mm1 f h in
        let (mm2, run, j, ins) =
          insert_vma_struct-IsInserted v mm1 f.valid (ground arith)
            (λ b p q. rw f.same (free b p q)) in
        (
          (ok, mm2),
          rw (h, g, run),
          record {
            valid = j;
            granted = λ _ a. ins.at a ∙ rw f.same refl;
            was_free = λ _. free;
            refused = λ ne. absurd (ne refl);
            taken = λ e _. absurd (ground arith);
            memory = λ e. absurd (ground arith);
            used = λ _. g;
            access = λ _. acc;
          },
        )
  ]
]

-- On a valid mm `mm_map` always returns: no assertion of the insertion fails. It grants the whole
-- pages of the request exactly if they lie in user space, no area holds one of their bytes, and
-- there is memory; then exactly those bytes are held anew. A refusal changes no area.
pub mm_map-IsMapped :
    (got : Bool) (addr len vm_flags : ℕ) (mm : Mm)
    → IsValid mm
    → (r : Status × Mm) × (mm_map got addr len vm_flags mm ≡ some r)
      × IsMapped got (requested addr len vm_flags) mm r
unfolding mm_map
mm_map-IsMapped got addr len vm_flags mm i =
    let v = requested addr len vm_flags in
    elim (Bool-cases (user_access v.vm_start v.vm_end)) [
      | inl acc ↦
          rw acc (
            mm_map-found got v mm (find_vma v.vm_start mm) i (find_vma-IsFound v.vm_start mm i) acc)
      | inr acc ↦ (
        (invalid, mm),
        rw acc,
        refusal got invalid v mm mm i refl (λ e. cc) (λ _ e. absurd (ground arith)) (λ e. cc),
      )
    ]
