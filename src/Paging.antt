-- ===== src/Paging.antt =====
-- Page tables: kern/mm/pmm.c and kern/mm/pmm.h, over the buddy allocator that pmm_manager points to. A
-- page is its page number. The machine sees the pages of RAM at KERNBASE, where PADDR and KADDR
-- change nothing, so a pointer into a page directory or a page table is a page number and the index
-- of a word. The translation buffer, which `tlb_invalidate` flushes, is not modelled.
pub mod Entry
pub mod Grid
pub mod Uses
pub mod Valid
pub mod Hold
pub mod Drop
pub mod Table
pub mod Walk
pub mod Grow
pub mod Remove
pub mod Unmap
pub mod Replace
pub mod Insert
pub mod Range
pub mod Empty
pub mod Fresh
pub mod Exit
pub mod Leave
mod Tests
use mips.Base.{
  ℕ, zero, suc, ◌+◌, ◌-◌, ◌*◌, ◌/◌, ◌^◌, ◌%◌, ◌==◌, Bool, true, false, Option, none, some, ltb, leb,
  if◌then◌else◌, ◌>>=◌, ◌>>◌, assert, not, ◌&&◌, bit_and, bit_or,
}
use mips.Proc.{has_flag}
use mips.Vmm.{page_size, kern_base, user_access}
use mips.Buddy.{Page, Buddy, put_page, buddy_alloc_pages, buddy_free_pages}

-- The descriptors of the pages with the free blocks, and the 1024 words of each page.
pub record Memory : Type 0 where
  pub phys : Buddy
  pub words : ℕ → ℕ → ℕ

-- A `pte_t *` or `pde_t *`.
abbrev pub Ptr : Type 0
Ptr = ℕ × ℕ

abbrev pub pte_p : ℕ
pte_p = 1

-- PTE_USER, which is PTE_U | PTE_W | PTE_P
abbrev pub pte_user : ℕ
pte_user = 7

-- PTSIZE
abbrev pub table_size : ℕ
table_size = 0x40_0000

-- E_NO_MEM
abbrev pub e_no_mem : ℕ
e_no_mem = 4

-- PDX, PTX and PPN
abbrev pub pdx : ℕ → ℕ
pdx la = la / 0x40_0000 % 1024

abbrev pub ptx : ℕ → ℕ
ptx la = la / 4096 % 1024

abbrev pub ppn : ℕ → ℕ
ppn pa = (pa + 2 ^ 32 - kern_base) % 2 ^ 32 / 4096

-- PTE_ADDR and PDE_ADDR
abbrev pub pte_addr : ℕ → ℕ
pte_addr pte = pte / 4096 * 4096

-- ROUNDDOWN_2N(a, PTSHIFT)
abbrev pub table_down : ℕ → ℕ
table_down a = a / 0x40_0000 * 0x40_0000

-- The test `*ptep & PTE_P`
abbrev pub present : ℕ → Bool
present pte = has_flag pte pte_p

abbrev pub page2pa : ℕ → ℕ
page2pa page = (kern_base + page * 4096) % 2 ^ 32

-- `pa2page`; KADDR makes the same test.
unfoldable pub pa2page : ℕ → Memory → Option ℕ
pa2page pa m = do assert (ltb (ppn pa) m.phys.npage); some (ppn pa)

unfoldable pub pte2page : ℕ → Memory → Option ℕ
unfolding pa2page
pte2page pte m = do assert (present pte); pa2page (pte_addr pte) m

unfoldable pub pde2page : ℕ → Memory → Option ℕ
unfolding pa2page
pde2page pde m = pa2page (pte_addr pde) m

abbrev pub load : Ptr → Memory → ℕ
load p m = m.words p.0 p.1

abbrev pub store : Ptr → ℕ → Memory → Memory
store p w m = record m { words = λ q i. if q == p.0 && i == p.1 then w else m.words q i }

-- `memset(page2kva(page), 0, PGSIZE)`
unfoldable pub clear_page : ℕ → Memory → Memory
clear_page page m = record m { words = λ q i. if q == page then 0 else m.words q i }

-- `memcpy(page2kva(to), page2kva(from), PGSIZE)`
unfoldable pub copy_page : (to from : ℕ) → Memory → Memory
copy_page to from m = record m { words = λ q i. if q == to then m.words from i else m.words q i }

abbrev pub page_ref : ℕ → Memory → ℕ
page_ref page m = (m.phys.pages page).ref

abbrev pub set_page_ref : (page val : ℕ) → Memory → Memory
set_page_ref page val m = record m {
  phys = put_page page (record (m.phys.pages page) { ref = val }) m.phys;
}

unfoldable pub page_ref_inc : ℕ → Memory → Memory
page_ref_inc page m = set_page_ref page ((page_ref page m + 1) % 2 ^ 32) m

unfoldable pub page_ref_dec : ℕ → Memory → Memory
page_ref_dec page m = set_page_ref page ((page_ref page m + 2 ^ 32 - 1) % 2 ^ 32) m

-- `alloc_pages(1)` and `free_pages(page, 1)`
unfoldable pub alloc_page : Memory → Option (Option ℕ × Memory)
alloc_page m = do (got, s) ← buddy_alloc_pages 1 m.phys; some (got, record m { phys = s })

unfoldable pub free_page : ℕ → Memory → Option Memory
free_page page m = do s ← buddy_free_pages page 1 m.phys; some (record m { phys = s })

-- The last lines of `get_pte`: the entry of `la` in the table that the directory names.
unfoldable pub entry_of : (pgdir la : ℕ) → Memory → Option Ptr
unfolding pde2page
entry_of pgdir la m = do table ← pde2page (m.words pgdir (pdx la)) m; some (table, ptx la)

-- What `get_pte` does with a new page: it becomes an empty page table of the directory.
unfoldable pub add_table : (pgdir la page : ℕ) → Memory → Option Memory
unfolding pa2page page_ref_inc clear_page
add_table pgdir la page m = do
  _ ← pa2page (page2pa page) m
  some (store (pgdir, pdx la) (bit_or (page2pa page) 7) (clear_page page (page_ref_inc page m)))

-- `get_pte`
unfoldable pub get_pte : (pgdir la : ℕ) (create : Bool) → Memory → Option (Option Ptr × Memory)
unfolding alloc_page entry_of add_table
get_pte pgdir la create m = elim (present (m.words pgdir (pdx la))) [
  | true ↦ (do p ← entry_of pgdir la m; some (some p, m))
  | false ↦ elim create [
    | false ↦ some (none, m)
    | true ↦ (do
      (got, m1) ← alloc_page m
      elim got [
        | none ↦ some (none, m1)
        | some page ↦ (do
          m2 ← add_table pgdir la page m1
          p ← entry_of pgdir la m2
          some (some p, m2))
      ])
  ]
]

-- `get_page`: the page of `la`, and what it stores at `ptep_store`.
unfoldable pub get_page : (pgdir la : ℕ) → Memory → Option (Option ℕ × Option Ptr)
unfolding get_pte pa2page
get_page pgdir la m = do
  (ptep, m1) ← get_pte pgdir la false m
  elim ptep [
    | none ↦ some (none, none)
    | some p ↦ elim (present (load p m1)) [
      | true ↦ (do page ← pa2page (load p m1) m1; some (some page, some p))
      | false ↦ some (none, some p)
    ]
  ]

-- `if(page_ref(page) == 0) free_page(page);`
unfoldable pub free_unused : ℕ → Memory → Option Memory
unfolding free_page
free_unused page m = elim (page_ref page m == 0) [ true ↦ free_page page m | false ↦ some m ]

-- A reference less, and a page without references is freed.
unfoldable pub drop_page : ℕ → Memory → Option Memory
unfolding page_ref_dec free_unused
drop_page page m = free_unused page (page_ref_dec page m)

-- `page_remove_pte` for a pointer that is not NULL.
unfoldable pub page_remove_pte : Ptr → Memory → Option Memory
unfolding pte2page drop_page
page_remove_pte p m = elim (present (load p m)) [
  | false ↦ some m
  | true ↦ (do page ← pte2page (load p m) m; m1 ← drop_page page m; some (store p 0 m1))
]

unfoldable pub page_remove : (pgdir la : ℕ) → Memory → Option Memory
unfolding get_pte page_remove_pte
page_remove pgdir la m = do
  (ptep, m1) ← get_pte pgdir la false m
  elim ptep [ none ↦ some m1 | some p ↦ page_remove_pte p m1 ]

-- What `page_insert` does with an entry that was there; `same` is the test `p == page`.
unfoldable pub replace_page : (same : Bool) → Ptr → (page : ℕ) → Memory → Option Memory
unfolding page_ref_dec page_remove_pte
replace_page true p page m = some (page_ref_dec page m)
replace_page false p page m = page_remove_pte p m

unfoldable pub replace_pte : Ptr → (page : ℕ) → Memory → Option Memory
unfolding pte2page replace_page
replace_pte p page m = elim (present (load p m)) [
  | false ↦ some m
  | true ↦ (do old ← pte2page (load p m) m; replace_page (old == page) p page m)
]

-- `page_insert`; the error is its number.
unfoldable pub page_insert : (pgdir page la perm : ℕ) → Memory → Option (ℕ × Memory)
unfolding get_pte page_ref_inc replace_pte
page_insert pgdir page la perm m = do
  (ptep, m1) ← get_pte pgdir la true m
  elim ptep [
    | none ↦ some (e_no_mem, m1)
    | some p ↦ (do
      m2 ← replace_pte p page (page_ref_inc page m1)
      some (0, store p (bit_or (bit_or (page2pa page) pte_p) perm) m2))
  ]
