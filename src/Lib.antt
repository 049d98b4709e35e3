-- ===== src/Lib.antt =====
-- Verification library of the ucore kernel in ucore/kern, a teaching operating system for a 32-bit
-- MIPS processor.
--
-- The parts of the program and their models
--
--   Base: booleans, lists, options and the integers that the parts share. An assertion of the C code
--   is `assert`, and a call that fails one gives `none`. Base/Results has the error numbers.
--   Proc: `struct proc_struct` of ucore/kern/process/proc.h, as far as the scheduler and the timers
--   read it. A `struct proc_struct *` is a number, and the processes are a function on numbers.
--   Sched: ucore/kern/schedule/sched.c with the round-robin class of default_sched.c, and proc_run
--   of ucore/kern/process/proc.c. The state is the processes, the run queue, the timer list, the
--   processor (`current`) and the need of a switch. `wakeup_proc`, `schedule`, `add_timer`,
--   `del_timer` and `run_timer_list` are the functions of those names. Sched/Timers has the timer
--   list as absolute deadlines, Sched/Tick and Sched/TickQueue the tick, Sched/RunQueue the run queue,
--   Sched/Turns a run of many calls of `schedule`.
--   Vmm: ucore/kern/mm/vmm.c. An mm is the sorted list of its areas, its count and the cache of
--   `find_vma`; the areas are named by their places. Vmm/Areas says when a list is well formed,
--   Vmm/Find, Vmm/Insert, Vmm/Map and Vmm/Check are about `find_vma`, `insert_vma_struct`, `mm_map`
--   and `user_mem_check`.
--   Buddy: ucore/kern/mm/buddy_pmm.c. A page is its index in `pages`; the free lists are lists of pages
--   with their counts, and each loop is a function: `split` of `buddy_alloc_pages_sub`, `reset_pages`
--   and `merge` of `buddy_free_pages_sub`, `free_up` and `free_down` of `buddy_free_pages`.
--   Buddy/Blocks says what a state promises: each free page is in one free block. Buddy/Bits has the
--   index of a buddy, Buddy/Sums and Buddy/Count the sums over the orders, Buddy/Alloc
--   `buddy_alloc_pages_sub`, Buddy/Merge and Buddy/Free `buddy_free_pages_sub`, Buddy/Range and
--   Buddy/Release `buddy_free_pages`, Buddy/Order `getorder`, Buddy/Grant and Buddy/Request
--   `buddy_alloc_pages`, Buddy/Fill and Buddy/Zone `buddy_init_memmap`. Buddy/Pair has the places of a
--   block and its buddy, Buddy/Frame what no operation changes.
--   Paging: the page tables of ucore/kern/mm/pmm.c and pmm.h, over the state of Buddy, to which
--   `pmm_manager` points. The state is that of the allocator with the 1024 words of every page; an entry
--   is a word, and a pointer to one a page and an index. Paging/Range has the functions on a range of
--   addresses (`unmap_range`, `exit_range`, `copy_range`) and `pgdir_alloc_page`. Paging/Entry has the
--   bits of an entry, Paging/Uses and Paging/Grid count the entries that name a page, Paging/Valid has
--   the invariant, with the references that running code holds, Paging/Hold and Paging/Drop take and
--   drop one, Paging/Table, Paging/Walk and Paging/Grow are about `get_pte`, Paging/Remove and
--   Paging/Unmap about `page_remove`, Paging/Replace and Paging/Insert about `page_insert`,
--   Paging/Empty about `unmap_range`, Paging/Exit and Paging/Leave about `exit_range`, Paging/Fresh
--   about `pgdir_alloc_page`. Buddy/Single and Buddy/Refs have what these need of the allocator.
--   Print: ucore/kern/libs/printfmt.c with the divisions of ucore/kern/include/thumips.h. What `putch`
--   is given is a list of its arguments, of type int; `sprintputch` keeps the low 8 bits of each.
--   Print/Number has the digits of `printnum`, Print/Format `vprintfmt`, with the extent of an escape
--   sequence in Print/Format/Sequence and the loop in Print/Format/Loop, Print/Buffer `vsnprintf`,
--   Print/Divide `__divu10` and `__divu5`.
--   Stdin: ucore/kern/fs/devs/dev_stdin.c over the wait queues of Sync. `dev_stdin_read` is cut at its
--   call of `schedule`: `read_begin` goes to the return or the switch, `read_resume` on from there.
--   Stdin/Fifo has the characters that wait to be read, Stdin/Reader the two ends.
--   Ring: the linked lists of ucore/kern/include/list.h, as the two links of every address. Ring/Chain
--   says what list the links stand for, Ring/Update what the operations do to it; the other models
--   take a list as what its links stand for.
--   File: ucore/kern/fs/file.c, the table in File and the calls of the system call layer in
--   File/Calls. The operations of inodes and of the virtual file system are a
--   parameter, a record `Vfs` over a world of its own. File/Count has the reference counts, with a
--   function `busy` for the calls that other threads have at work on a file; File/Descriptors,
--   File/Open and File/Seek are about the calls, File/Session about sequences of them.
--   Pid: the pids of ucore/kern/process/proc.c (`get_pid`) and its hash table of processes
--   (`hash_proc`, `unhash_proc`, `find_proc`), with `hash32` of ucore/kern/libs/hash.c. Pid/Fresh is
--   about the choice of a pid, Pid/Lookup about the table.
--   Family: the tree of processes in ucore/kern/process/proc.c: `set_links` and `remove_links`, the
--   walk of `do_wait` over the children (`find_zombie`) and its end (`reap`), the loop of `do_exit`
--   over them (`adopt_children`), and `do_kill`. The state is that of Sched with the list of
--   processes, their number, the hash table of Pid and `initproc`. Family/Chain says what links stand
--   for lists of children, Family/Links is about `set_links`, Family/Erase and Family/Unlink about
--   `remove_links`, Family/Reap about `do_wait`, Family/Adopt, Family/Exit and Family/Handover about
--   the loop of `do_exit`. `nr_process` counts the listed processes, and so it
--   is not 0 where it is decreased.
--   Sync: ucore/kern/sync/wait.c and sem.c. The state is that of Sched with the waits, the queues and
--   the values of the semaphores. `__down` is cut at its call of `schedule`: `down_begin` ends with
--   the switch, and `down_end` is what its process does when it runs again. Sync/Queue has the wait
--   queues, Sync/Semaphore `up`, Sync/Down `down` and `try_down`, Sync/Wakeup `wakeup_queue`.
--   Bitmap: ucore/kern/fs/sfs/bitmap.c, with a word as its 32 bits. Bitmap/Create is about a new
--   bitmap, Bitmap/Alloc about `bitmap_alloc` and `bitmap_free`.
--   Iobuf: ucore/kern/fs/iobuf.c over the memory and the `memmove` of Str; Iobuf/Move is about
--   `iobuf_move`.
--   Str: ucore/kern/libs/string.c over a memory of bytes. Str/Move has the copies of blocks,
--   Str/Text the routines on one string and Str/Compare the comparisons.
--
-- The parts interact as in the kernel: a tick of the timer list wakes processes, a wakeup puts them
-- in the run queue, and `schedule` takes them from it; `up` wakes through the same function, and
-- `down` gives up the processor through `schedule`. Interrupts are off in these functions
-- (`local_intr_save`), so each is one step. The calls on files may be interrupted between taking a
-- reference and giving it back; `busy` stands for that.
--
-- Bounds and fuel
--
-- Addresses and counters are natural numbers. Where the C code can wrap around in a width that a
-- caller reaches, the remainder is written out (`% 2 ^ 32` of a file offset); pointers are assumed
-- not to pass the end of the address space. The loops over a string run on fuel, one step for each
-- character and one for the NUL, and the theorems ask for as much. The loop of `user_mem_check`
-- runs on fuel too, one step for each byte of the range, and its theorem says that this is enough.
-- The walks of `get_pid` down the process list run on MAX_PID of fuel, and so many are never
-- needed. The value of a semaphore is a natural number, which no step takes below 0, and is
-- assumed not to reach 2^31. The loop of `vprintfmt` runs on fuel, one step more than the format
-- has characters, and each round takes a character at least; `printnum` has eleven digits, enough
-- for 2^32 in base 8. The loops of `buddy_free_pages` run on the number of orders and on the
-- number of pages that are left, those of `buddy_init_memmap` on both. The loops over a range of
-- addresses run on the number of its pages or page tables, and the theorems say that this is enough;
-- a reference count is kept to 32 bits, and fewer than 2048 directories never use so many. All other loops recur on a
-- list or on a count.
--
-- Not modelled
--
-- The translation buffer, the start of pmm.c (pmm_init, page_init, its checks and print_pgdir), the
-- kernel heap (kmalloc.c), do_fork, what do_exit and do_wait do
-- besides the links between processes (the release of memory, the sleep), the loading of programs,
-- the file systems below the open files, devices, traps, system call dispatch, the user programs
-- and the hardware.
pub mod Base
pub mod Proc
pub mod Sched
pub mod Vmm
pub mod Str
pub mod File
pub mod Pid
pub mod Sync
pub mod Bitmap
pub mod Iobuf
pub mod Stdin
pub mod Print
pub mod Buddy
pub mod Ring
pub mod Paging
pub mod Family
