-- ===== src/Paging/Range.antt =====
-- The functions of kern/mm/pmm.c that work on the pages of a range of addresses: `unmap_range`,
-- `exit_range`, `copy_range` and `pgdir_alloc_page`. The loops run on fuel: a round for each page.
use mips.Base.{
  ℕ, zero, suc, ◌+◌, ◌-◌, ◌*◌, ◌/◌, ◌^◌, ◌%◌, ◌==◌, Bool, true, false, Option, none, some, ltb,
  ◌>>=◌, ◌>>◌, assert, not, ◌&&◌, bit_and,
}
use mips.Vmm.{page_size, user_access}
use mips.Paging.{
  Memory, Ptr, get_pte, load, store, present, pte_user, page_remove_pte, page_insert, alloc_page,
  free_page, pte2page, pde2page, copy_page, table_size, table_down, pdx, e_no_mem,
}

-- `if (*ptep != 0) page_remove_pte(...)`; `none_there` is the test's opposite.
unfoldable pub unmap_pte : (none_there : Bool) → Ptr → Memory → Option Memory
unmap_pte true p m = some m
unmap_pte false p m = page_remove_pte p m

-- A round of the loop of `unmap_range`; it gives the next address.
unfoldable pub unmap_page : (pgdir start : ℕ) → Memory → Option (ℕ × Memory)
unfolding unmap_pte
unmap_page pgdir start m = do
  (ptep, m1) ← get_pte pgdir start false m
  elim ptep [
    | none ↦ some (table_down ((start + table_size) % 2 ^ 32), m1)
    | some p ↦ (do m2 ← unmap_pte (load p m1 == 0) p m1; some ((start + page_size) % 2 ^ 32, m2))
  ]

unfoldable pub unmap_pages : (fuel pgdir start end : ℕ) → Memory → Option Memory
unfolding unmap_page
unmap_pages zero pgdir start end m = none
unmap_pages (suc fuel) pgdir start end m = do
  (next, m1) ← unmap_page pgdir start m
  elim (not (next == 0) && ltb next end) [
    | true ↦ unmap_pages fuel pgdir next end m1
    | false ↦ some m1
  ]

-- `unmap_range`
unfoldable pub unmap_range : (pgdir start end : ℕ) → Memory → Option Memory
unfolding unmap_pages
unmap_range pgdir start end m = do
  assert (start % page_size == 0 && end % page_size == 0)
  assert (user_access start end)
  unmap_pages ((end - start) / page_size) pgdir start end m

-- A round of the loop of `exit_range`: a page table is freed.
unfoldable pub exit_table : (pgdir start : ℕ) → Memory → Option Memory
exit_table pgdir start m = elim (present (m.words pgdir (pdx start))) [
  | false ↦ some m
  | true ↦ (do
    table ← pde2page (m.words pgdir (pdx start)) m
    m1 ← free_page table m
    some (store (pgdir, pdx start) 0 m1))
]

unfoldable pub exit_tables : (fuel pgdir start end : ℕ) → Memory → Option Memory
unfolding exit_table
exit_tables zero pgdir start end m = none
exit_tables (suc fuel) pgdir start end m = do
  m1 ← exit_table pgdir start m
  let next = (start + table_size) % 2 ^ 32
  elim (not (next == 0) && ltb next end) [
    | true ↦ exit_tables fuel pgdir next end m1
    | false ↦ some m1
  ]

-- `exit_range`
unfoldable pub exit_range : (pgdir start end : ℕ) → Memory → Option Memory
unfolding exit_tables
exit_range pgdir start end m = do
  assert (start % page_size == 0 && end % page_size == 0)
  assert (user_access start end)
  exit_tables ((end - start) / table_size + 2) pgdir (table_down start) end m

-- What a round of `copy_range` does with the entry `pte` of a page that is there. The result of
-- `page_insert` is not looked at.
unfoldable pub copy_entry : (to start pte : ℕ) → Memory → Option Memory
copy_entry to start pte m = do
  page ← pte2page pte m
  (got, m1) ← alloc_page m
  elim got [
    | none ↦ none
    | some npage ↦ (do
      (_, m2) ← page_insert to npage start (bit_and pte pte_user) (copy_page npage page m1)
      some m2)
  ]

-- A round of the loop of `copy_range`: the next address, or nothing for the error.
unfoldable pub copy_address : (to from start : ℕ) → Memory → Option (Option ℕ × Memory)
unfolding copy_entry
copy_address to from start m = do
  (ptep, m1) ← get_pte from start false m
  elim ptep [
    | none ↦ some (some ((start + table_size) % 2 ^ 32 / page_size * page_size), m1)
    | some p ↦ elim (present (load p m1)) [
      | false ↦ some (some ((start + page_size) % 2 ^ 32), m1)
      | true ↦ (do
        (nptep, m2) ← get_pte to start true m1
        elim nptep [
          | none ↦ some (none, m2)
          | some _ ↦ (do
            m3 ← copy_entry to start (load p m2) m2
            some (some ((start + page_size) % 2 ^ 32), m3))
        ])
    ]
  ]

unfoldable pub copy_addresses : (fuel to from start end : ℕ) → Memory → Option (ℕ × Memory)
unfolding copy_address
copy_addresses zero to from start end m = none
copy_addresses (suc fuel) to from start end m = do
  (next, m1) ← copy_address to from start m
  elim next [
    | none ↦ some (e_no_mem, m1)
    | some a ↦ elim (not (a == 0) && ltb a end) [
      | true ↦ copy_addresses fuel to from a end m1
      | false ↦ some (0, m1)
    ]
  ]

-- `copy_range`; `share` is not used. The result is 0 or the number of the error.
unfoldable pub copy_range : (to from start end : ℕ) → Memory → Option (ℕ × Memory)
unfolding copy_addresses
copy_range to from start end m = do
  assert (start % page_size == 0 && end % page_size == 0)
  assert (user_access start end)
  copy_addresses ((end - start) / page_size) to from start end m

-- `swap_init_ok` of kern/mm/vmm.c
abbrev pub swap_init_ok : Bool
swap_init_ok = false

-- `pgdir_alloc_page`
unfoldable pub pgdir_alloc_page : (pgdir la perm : ℕ) → Memory → Option (Option ℕ × Memory)
pgdir_alloc_page pgdir la perm m = do
  (got, m1) ← alloc_page m
  elim got [
    | none ↦ some (none, m1)
    | some page ↦ (do
      (code, m2) ← page_insert pgdir page la perm m1
      elim (code == 0) [
        | true ↦ (do assert (not swap_init_ok); some (some page, m2))
        | false ↦ (do m3 ← free_page page m2; some (none, m3))
      ])
  ]
