-- ===== src/Vmm.antt =====
-- Virtual memory areas: the part of kern/mm/vmm.c that works on the list of areas of an mm_struct
-- (vma_create, find_vma, insert_vma_struct, mm_map, user_mem_check), and USER_ACCESS and KERN_ACCESS
-- of kern/mm/memlayout.h. An area is never changed once it is linked, so a pointer to one is its
-- value. Addresses are 32 bits wide.
pub mod Areas
pub mod Find
pub mod Insert
pub mod Map
pub mod Check
mod Tests
use mips.Base.{
  ℕ, zero, suc, ◌+◌, ◌-◌, ◌*◌, ◌/◌, ◌^◌, ◌%◌, ◌==◌, Bool, true, false, Option, none, some, List, [],
  ◌∷◌, ltb, leb, if◌then◌else◌, ◌>>=◌, ◌>>◌, assert, not, ◌&&◌, ◌||◌,
}
use mips.Proc.{has_flag}

pub record Vma : Type 0 where
  pub vm_start : ℕ
  pub vm_end : ℕ
  pub vm_flags : ℕ

-- The fields of `struct mm_struct` that the area functions use.
pub record Mm : Type 0 where
  pub mmap_list : List Vma
  pub mmap_cache : Option Vma
  pub map_count : ℕ

abbrev pub vm_read : ℕ
vm_read = 1

abbrev pub vm_write : ℕ
vm_write = 2

abbrev pub vm_stack : ℕ
vm_stack = 8

abbrev pub page_size : ℕ
page_size = 4096

-- ROUNDDOWN_2N(a, PGSHIFT) and ROUNDUP_2N(a, PGSHIFT)
abbrev pub round_down : ℕ → ℕ
round_down a = a / 4096 * 4096

abbrev pub round_up : ℕ → ℕ
round_up a = round_down ((a + 4096 - 1) % 2 ^ 32)

abbrev pub user_base : ℕ
user_base = 0x1000_0000

abbrev pub user_top : ℕ
user_top = 0x8000_0000

-- KERNBASE and KERNTOP, the build with 32 MB of memory.
abbrev pub kern_base : ℕ
kern_base = 0x8000_0000

abbrev pub kern_top : ℕ
kern_top = 0x8200_0000

abbrev pub user_access : ℕ → ℕ → Bool
user_access from to = leb user_base from && ltb from to && leb to user_top

abbrev pub kern_access : ℕ → ℕ → Bool
kern_access from to = leb kern_base from && ltb from to && leb to kern_top

-- `mm_create`
pub empty_mm : Mm
empty_mm = record { mmap_list = []; mmap_cache = none; map_count = 0 }

-- `vma->vm_start <= addr && vma->vm_end > addr`
abbrev pub holds : ℕ → Vma → Bool
holds addr v = leb v.vm_start addr && ltb addr v.vm_end

-- The walk of `find_vma`: the first area that ends behind the address.
unfoldable pub first_after : ℕ → List Vma → Option Vma
first_after addr [] = none
first_after addr (v ∷ l) = if ltb addr v.vm_end then some v else first_after addr l

cache_hit : ℕ → Option Vma → Bool
cache_hit addr none = false
cache_hit addr (some v) = holds addr v

remember : Option Vma → Mm → Mm
remember none mm = mm
remember (some v) mm = record mm { mmap_cache = some v }

-- `find_vma` for an mm that is not NULL.
unfoldable pub find_vma : ℕ → Mm → Option Vma × Mm
unfolding first_after cache_hit remember
find_vma addr mm =
    let found =
      if cache_hit addr mm.mmap_cache then mm.mmap_cache else first_after addr mm.mmap_list in
    (found, remember found mm)

check_vma_overlap : Vma → Vma → Option (Unit {0})
check_vma_overlap prev next = do
  assert (ltb prev.vm_start prev.vm_end)
  assert (leb prev.vm_end next.vm_start)
  assert (ltb next.vm_start next.vm_end)

check_prev : Option Vma → Vma → Option (Unit {0})
unfolding check_vma_overlap
check_prev none v = some tt
check_prev (some p) v = check_vma_overlap p v

-- The walk of `insert_vma_struct` with `le_prev`, the two checks, and the link behind `le_prev`.
insert_behind : Option Vma → Vma → List Vma → Option (List Vma)
unfolding check_prev
insert_behind prev v [] = do check_prev prev v; some (v ∷ [])
insert_behind prev v (n ∷ l) = elim (ltb v.vm_start n.vm_start) [
  | true ↦ (do check_prev prev v; check_vma_overlap v n; some (v ∷ n ∷ l))
  | false ↦ (do l' ← insert_behind (some n) v l; some (n ∷ l'))
]

pub insert_vma_struct : Vma → Mm → Option Mm
unfolding insert_behind
insert_vma_struct v mm = do
  assert (ltb v.vm_start v.vm_end)
  l ← insert_behind none v mm.mmap_list
  some (record mm { mmap_list = l; map_count = (mm.map_count + 1) % 2 ^ 32 })

-- What `mm_map` returns: 0, -E_INVAL, -E_NO_MEM.
pub data Status : Type 0 where
  ok invalid no_mem : Status

overlaps : ℕ → Option Vma → Bool
overlaps end' none = false
overlaps end' (some v) = ltb v.vm_start end'

-- `got` is whether the `kmalloc` of `vma_create` gives memory; `none` is a failed assertion.
pub mm_map : Bool → ℕ → ℕ → ℕ → Mm → Option (Status × Mm)
unfolding find_vma overlaps insert_vma_struct
mm_map got addr len vm_flags mm =
    let start = round_down addr in
    let end' = round_up ((addr + len) % 2 ^ 32) in
    let (vma, mm1) = find_vma start mm in
    let vma' : Vma = record { vm_start = start; vm_end = end'; vm_flags = vm_flags } in
    if not (user_access start end')
    then some (invalid, mm)
    else if overlaps end' vma
    then some (invalid, mm1)
    else if not got
    then some (no_mem, mm1)
    else (do mm2 ← insert_vma_struct vma' mm1; some (ok, mm2))

-- The guard page of a stack area is not for writing.
pub stack_guard : Bool → ℕ → Vma → Bool
stack_guard write start v =
    write && has_flag v.vm_flags vm_stack && ltb start ((v.vm_start + page_size) % 2 ^ 32)

-- The tests of one round of `user_mem_check`.
area_ok : Bool → ℕ → Vma → Bool
unfolding stack_guard
area_ok write start v =
    leb v.vm_start start
    && has_flag v.vm_flags (if write then vm_write else vm_read)
    && not (stack_guard write start v)

-- The loop of `user_mem_check`, on fuel.
check_areas : ℕ → Bool → ℕ → ℕ → Mm → Option (Bool × Mm)
unfolding find_vma area_ok
check_areas zero write start end' mm = none
check_areas (suc fuel) write start end' mm = elim (ltb start end') [
  | false ↦ some (true, mm)
  | true ↦ elim (find_vma start mm).0 [
    | none ↦ some (false, (find_vma start mm).1)
    | some v ↦ elim (area_ok write start v) [
      | false ↦ some (false, (find_vma start mm).1)
      | true ↦ check_areas fuel write v.vm_end end' (find_vma start mm).1
    ]
  ]
]

-- `user_mem_check` for a process with an mm; every round covers a byte, so the length is fuel enough.
pub user_mem_check : ℕ → ℕ → Bool → Mm → Option (Bool × Mm)
unfolding check_areas
user_mem_check addr len write mm =
    let end' = (addr + len) % 2 ^ 32 in
    if user_access addr end' then check_areas (len + 1) write addr end' mm else some (false, mm)

-- `user_mem_check` for a kernel thread, whose mm is NULL.
pub kernel_mem_check : ℕ → ℕ → Bool
kernel_mem_check addr len = kern_access addr ((addr + len) % 2 ^ 32)
