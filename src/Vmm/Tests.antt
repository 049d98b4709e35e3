-- ===== src/Vmm/Tests.antt =====
-- An mm with a code area and a stack, and the theorems at it.
use mips.Base.{◌≡◌, refl, Bool, true, false, some, [], ◌∷◌, inl, inr, arith}
use mips.Proc.{has_flag}
use mips.Vmm.{Vma, Mm, Status, find_vma, insert_vma_struct, mm_map, user_mem_check, user_access}
use mips.Vmm.Areas.{IsValid, area_at}
use mips.Vmm.Find.{IsFound, find_vma-IsFound}
use mips.Vmm.Insert.{IsFree, IsInserted, insert_vma_struct-IsInserted}
use mips.Vmm.Map.{IsMapped, requested, mm_map-IsMapped}
use mips.Vmm.Check.{IsChecked, user_mem_check-IsChecked}

abbrev text_area : Vma
text_area = record { vm_start = 0x1000_0000; vm_end = 0x1000_2000; vm_flags = 5 }

abbrev stack_area : Vma
stack_area = record { vm_start = 0x7fff_0000; vm_end = 0x8000_0000; vm_flags = 11 }

abbrev mm : Mm
mm = record { mmap_list = text_area ∷ stack_area ∷ []; mmap_cache = some stack_area; map_count = 2 }

mm-IsValid : IsValid mm
mm-IsValid = record { sorted = omega arith; cached = inr (inl refl) }

find_vma-IsFound_example : IsFound 0x1000_2000 mm (find_vma 0x1000_2000 mm)
find_vma-IsFound_example = find_vma-IsFound 0x1000_2000 mm mm-IsValid

next_area_found : (find_vma 0x1000_2000 mm).0 ≡ some stack_area
unfolding find_vma
next_area_found = refl

abbrev heap_area : Vma
heap_area = record { vm_start = 0x1000_4000; vm_end = 0x1000_5000; vm_flags = 3 }

heap-IsFree : IsFree 0x1000_4000 0x1000_5000 mm.mmap_list
unfolding area_at
heap-IsFree b h k = ground arith

insert_vma_struct-IsInserted_example :
    (mm' : Mm) × (insert_vma_struct heap_area mm ≡ some mm')
    × IsValid mm'
    × IsInserted 0 heap_area mm.mmap_list mm'.mmap_list
insert_vma_struct-IsInserted_example =
    insert_vma_struct-IsInserted heap_area mm mm-IsValid (omega arith) heap-IsFree

mm_map-IsMapped_example :
    (r : Status × Mm) × (mm_map true 0x1000_4321 0x1800 3 mm ≡ some r)
    × IsMapped true (requested 0x1000_4321 0x1800 3) mm r
mm_map-IsMapped_example = mm_map-IsMapped true 0x1000_4321 0x1800 3 mm mm-IsValid

whole_pages :
    requested 0x1000_4321 0x1800 3
    ≡ record { vm_start = 0x1000_4000; vm_end = 0x1000_6000; vm_flags = 3 }
whole_pages = refl

user_mem_check-IsChecked_example :
    (r : Bool × Mm) × (user_mem_check 0x7fff_2000 64 true mm ≡ some r)
    × (r.1.mmap_list ≡ mm.mmap_list)
    × ((user_access 0x7fff_2000 0x7fff_2040 ≡ true) → IsChecked true 0x7fff_2000 0x7fff_2040 mm r)
    × (r.0 ≡ true → user_access 0x7fff_2000 0x7fff_2040 ≡ true)
user_mem_check-IsChecked_example = user_mem_check-IsChecked 0x7fff_2000 64 true mm mm-IsValid

stack_can_be_written : user_mem_check 0x7fff_2000 64 true mm ≡ some (true, mm)
unfolding user_mem_check has_flag
stack_can_be_written = refl

guard_page_cannot : user_mem_check 0x7fff_0040 64 true mm ≡ some (false, mm)
unfolding user_mem_check has_flag
guard_page_cannot = refl
