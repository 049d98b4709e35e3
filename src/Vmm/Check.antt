-- ===== src/Vmm/Check.antt =====
-- `user_mem_check`, byte for byte.
use mips.Base.{
  ℕ, zero, suc, ◌+◌, ◌-◌, ◌%◌, ◌^◌, ◌<◌, ◌≤◌, ◌≡◌, refl, Bool, true, false, Option, none, some, inl,
  inr, arith, Bool-cases, if◌then◌else◌, ltb, ◌&&◌, not, Option-cases, ◌∙◌, subst,
}
use mips.Proc.{has_flag}
use mips.Vmm.{
  Vma, Mm, vm_read, vm_write, stack_guard, user_access, find_vma, area_ok, check_areas,
  user_mem_check,
}
use mips.Vmm.Areas.{area_at, In, IsValid, area_at-In}
use mips.Vmm.Find.{IsFound, find_vma-IsFound}

abbrev pub permission : Bool → ℕ
permission write = if write then vm_write else vm_read

-- The byte `b`, held by the area, may be accessed: the area has the permission, and the byte is
-- not written in the guard page of a stack.
abbrev pub allows : Bool → ℕ → Option Vma → Bool
allows write b none = false
allows write b (some v) = has_flag v.vm_flags (permission write) && not (stack_guard write b v)

-- Every byte from `from` to `to` may be accessed.
abbrev pub IsAllowed : Bool → ℕ → ℕ → Mm → Type 0
IsAllowed write from to mm =
    (b : ℕ) → from ≤ b → b < to → allows write b (area_at b mm.mmap_list) ≡ true

-- Some byte may not.
abbrev pub IsDenied : Bool → ℕ → ℕ → Mm → Type 0
IsDenied write from to mm =
    (b : ℕ) × (from ≤ b) × (b < to) × (allows write b (area_at b mm.mmap_list) ≡ false)

-- The verdict of the check is exact, and no area changes.
pub record IsChecked (write : Bool) (from to : ℕ) (mm : Mm) (r : Bool × Mm) : Type 0 where
  pub valid : IsValid r.1
  pub same : r.1.mmap_list ≡ mm.mmap_list
  pub sound : r.0 ≡ true → IsAllowed write from to mm
  pub complete : r.0 ≡ false → IsDenied write from to mm

-- The rest of an area that passes at one byte passes.
area_ok-allows :
    (write : Bool) (start b : ℕ) (v : Vma) (mm : Mm)
    → IsValid mm
    → In v mm.mmap_list
    → area_ok write start v ≡ true
    → start ≤ b
    → b < v.vm_end
    → allows write b (area_at b mm.mmap_list) ≡ true
unfolding area_ok stack_guard
area_ok-allows write start b v mm i e ok h k =
    rw (area_at-In b 0 v mm.mmap_list i.sorted e (ground arith)) (ground arith)

not_area_ok-denies :
    (write : Bool) (start : ℕ) (v : Vma) (mm mm' : Mm)
    → IsFound start mm (some v, mm')
    → area_ok write start v ≡ false
    → allows write start (area_at start mm.mmap_list) ≡ false
unfolding area_ok stack_guard
not_area_ok-denies write start v mm mm' f no_good = rw f.hit (ground arith)

denial :
    (write : Bool) (start to : ℕ) (mm mm' : Mm) (o : Option Vma)
    → IsFound start mm (o, mm')
    → start < to
    → allows write start (area_at start mm.mmap_list) ≡ false
    → IsChecked write start to mm (false, mm')
denial write start to mm mm' o f h d = record {
  valid = f.valid;
  same = f.same;
  sound = λ e. absurd (ground arith);
  complete = λ _. (start, omega arith, h, d);
}

next_area :
    (write : Bool) (start to : ℕ) (v : Vma) (mm mm' : Mm) (r : Bool × Mm)
    → IsValid mm
    → IsFound start mm (some v, mm')
    → area_ok write start v ≡ true
    → IsChecked write v.vm_end to mm' r
    → IsChecked write start to mm r
next_area write start to v mm mm' r i f ok c = record {
  valid = c.valid;
  same = c.same ∙ f.same;
  sound = λ e b p q. elim (Bool-cases (ltb b v.vm_end)) [
    | inl k ↦ area_ok-allows write start b v mm i f.listed ok p (ground arith)
    | inr k ↦ rw (← f.same) (c.sound e b (ground arith) q)
  ];
  complete = λ e.
      let (b, p, q, d) = c.complete e in
      let past = f.behind v refl in (b, omega arith, q, rw (← f.same) d);
}

check_areas-IsChecked :
    (fuel : ℕ) (write : Bool) (start to : ℕ) (mm : Mm)
    → IsValid mm
    → to - start < fuel
    → (r : Bool × Mm) × (check_areas fuel write start to mm ≡ some r)
      × IsChecked write start to mm r
unfolding check_areas
check_areas-IsChecked zero write start to mm i h = absurd (omega arith)
check_areas-IsChecked (suc fuel) write start to mm i h = elim (Bool-cases (ltb start to)) [
  | inr e ↦ (
    (true, mm),
    ground arith,
    record {
      valid = i;
      same = refl;
      sound = λ _ b p q. absurd (ground arith);
      complete = λ e. absurd (ground arith);
    },
  )
  | inl e ↦
      let f = find_vma-IsFound start mm i in
      let mm1 = (find_vma start mm).1 in
      elim (Option-cases (find_vma start mm).0) [
        | inl miss ↦
            let g = subst (λ o. IsFound start mm (o, mm1)) miss f in
            (
              (false, mm1),
              ground (arith, miss, e),
              denial write start to mm mm1 none g (ground arith) (rw g.hit),
            )
        | inr (v, found) ↦
            let g = subst (λ o. IsFound start mm (o, mm1)) found f in
            let past = g.behind v refl in
            elim (Bool-cases (area_ok write start v)) [
              | inr stop ↦ (
                (false, mm1),
                ground (arith, found, e, stop),
                denial write start to mm mm1 (some v) g (ground arith)
                    (not_area_ok-denies write start v mm mm1 g stop),
              )
              | inl ok ↦
                  let (r, run, c) =
                    check_areas-IsChecked fuel write v.vm_end to mm1 g.valid (ground arith) in
                  (
                    r,
                    ground (arith, found, e, ok, run),
                    next_area write start to v mm mm1 r i g ok c,
                  )
            ]
      ]
]

-- On a valid mm `user_mem_check` always returns, and changes no area. A range in user space passes
-- exactly if each of its bytes is held by an area with the permission (and is not written in the
-- guard page of a stack); no other range passes.
pub user_mem_check-IsChecked :
    (addr len : ℕ) (write : Bool) (mm : Mm)
    → IsValid mm
    → (r : Bool × Mm) × (user_mem_check addr len write mm ≡ some r)
      × (r.1.mmap_list ≡ mm.mmap_list)
      × ((user_access addr ((addr + len) % 2 ^ 32) ≡ true)
          → IsChecked write addr ((addr + len) % 2 ^ 32) mm r)
      × (r.0 ≡ true → user_access addr ((addr + len) % 2 ^ 32) ≡ true)
unfolding user_mem_check
user_mem_check-IsChecked addr len write mm i =
    let to = (addr + len) % 2 ^ 32 in
    elim (Bool-cases (user_access addr to)) [
      | inl acc ↦
          let (r, run, c) = check_areas-IsChecked (len + 1) write addr to mm i (omega arith) in
          (r, rw acc run, c.same, λ _. c, λ _. acc)
      | inr acc ↦
          ((false, mm), rw acc, refl, λ h. absurd (ground arith), λ h. absurd (ground arith))
    ]
