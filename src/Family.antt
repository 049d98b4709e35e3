-- ===== src/Family.antt =====
-- The tree of processes: set_links, remove_links, do_kill, and the parts of do_exit and do_wait in
-- kern/process/proc.c that work on the links between parents and children. A process is its address,
-- as in Proc; a pointer that is followed and is NULL gives `none`.
pub mod Chain
pub mod Links
pub mod Erase
pub mod Unlink
pub mod Reap
pub mod Adopt
pub mod Exit
pub mod Handover
mod Tests
use mips.Base.{
  ℕ, zero, suc, ◌+◌, ◌-◌, ◌==◌, Bool, true, false, Option, none, some, List, [], ◌∷◌, ◌>>=◌, ◌>>◌,
  erase, assert, bit_or, not, ◌&&◌, ◌||◌, if◌then◌else◌,
}
use mips.Proc.{
  ProcState, zombie, Proc, Table, update, is_zombie, has_flag, pf_exiting, wt_interrupted, wt_child,
}
use mips.Sched.{State, wakeup_proc}
use mips.Pid.{Buckets, find_proc, unhash_proc}

-- The globals of proc.c beside those of the scheduler.
pub record Processes : Type 0 where
  pub sched : State
  pub proc_list : List ℕ
  pub nr_process : ℕ
  pub hash_list : Buckets
  pub initproc : ℕ

abbrev pub procs : Processes → Table
procs s = s.sched.procs

abbrev pub with_procs : Table → Processes → Processes
with_procs t s = record s { sched = record s.sched { procs = t } }

abbrev pub set_yptr : ℕ → Option ℕ → Table → Table
set_yptr p v t = update t p (record (t p) { yptr = v })

abbrev pub set_optr : ℕ → Option ℕ → Table → Table
set_optr p v t = update t p (record (t p) { optr = v })

abbrev pub set_cptr : ℕ → Option ℕ → Table → Table
set_cptr p v t = update t p (record (t p) { cptr = v })

abbrev pub set_parent : ℕ → Option ℕ → Table → Table
set_parent p v t = update t p (record (t p) { parent = v })

-- `if (older != NULL) older->yptr = v`
unfoldable pub link_older : (older v : Option ℕ) → Table → Table
link_older none v t = t
link_older (some o) v t = set_yptr o v t

-- The links that `set_links` and the loop of `do_exit` make: `p` is the youngest child of `q`, whose
-- youngest one was `older`.
unfoldable pub add_before : (older : Option ℕ) (p q : ℕ) → Table → Table
unfolding link_older
add_before older p q t = set_cptr q (some p) (link_older older (some p) (set_optr p older t))

unfoldable pub add_child : (p q : ℕ) → Table → Table
unfolding add_before
add_child p q t = let t1 = set_yptr p none t in add_before (t1 q).cptr p q t1

-- `set_links`
unfoldable pub set_links : ℕ → Processes → Option Processes
unfolding add_child
set_links p s = do
  q ← (procs s p).parent
  some (record (with_procs (add_child p q (procs s)) s) {
    proc_list = p ∷ s.proc_list;
    nr_process = s.nr_process + 1;
  })

-- The end of the links of `remove_links`: the younger one, or the parent, gets `older`.
unfoldable pub link_younger : (younger older parent : Option ℕ) → Table → Option Table
link_younger none older none t = none
link_younger none older (some q) t = some (set_cptr q older t)
link_younger (some y) older parent t = some (set_optr y older t)

unfoldable pub drop_child : ℕ → Table → Option Table
unfolding link_older link_younger
drop_child p t =
    let t1 = link_older (t p).optr (t p).yptr t in
    link_younger (t1 p).yptr (t1 p).optr (t1 p).parent t1

-- `remove_links`
unfoldable pub remove_links : ℕ → Processes → Option Processes
unfolding drop_child
remove_links p s = do
  t ← drop_child p (procs s)
  some (record (with_procs t s) { proc_list = erase p s.proc_list; nr_process = s.nr_process - 1 })

-- A round of the loop of `do_exit` for a process that exits, `current`: its youngest child `p`
-- becomes one of initproc.
unfoldable pub adopt_child : (p : ℕ) → Processes → Option Processes
unfolding add_child
adopt_child p s = do
  let t1 = set_cptr s.sched.current (procs s p).optr (procs s)
  let t2 = add_child p s.initproc t1
  let s1 = with_procs (set_parent p (some s.initproc) t2) s
  elim (is_zombie (procs s1 p).state && (procs s1 s.initproc).wait_state == wt_child) [
    | false ↦ some s1
    | true ↦ (do sched1 ← wakeup_proc s.initproc s1.sched; some (record s1 { sched = sched1 }))
  ]

-- The loop, on fuel: a round for each child.
unfoldable pub adopt_children : (fuel : ℕ) → Processes → Option Processes
unfolding adopt_child
adopt_children zero s = none
adopt_children (suc fuel) s = elim (procs s s.sched.current).cptr [
  | none ↦ some s
  | some p ↦ (do s1 ← adopt_child p s; adopt_children fuel s1)
]

-- What the loop of `do_wait` over the children finds, on fuel: whether there is a child, and the
-- first zombie.
unfoldable pub find_zombie :
    (fuel : ℕ) → Table → (haskid : Bool) → Option ℕ → Option (Bool × Option ℕ)
find_zombie fuel t haskid none = some (haskid, none)
find_zombie zero t haskid (some p) = none
find_zombie (suc fuel) t haskid (some p) = elim (is_zombie (t p).state) [
  | true ↦ some (true, some p)
  | false ↦ find_zombie fuel t true (t p).optr
]

-- The end of `do_wait`, for the child that it has found: what it stores at `code_store`, which is
-- nothing for a null pointer, and the process gone; the result of do_wait is 0 then. The memory that
-- put_kstack and kfree give back is not part of the state.
unfoldable pub reap : (code_store : Bool) (p : ℕ) → Processes → Option (Option ℕ × Processes)
unfolding remove_links
reap code_store p s = do
  assert (not (p == s.sched.idleproc || p == s.initproc))
  s1 ← remove_links p (record s { hash_list = unhash_proc (procs s) p s.hash_list })
  some (if code_store then some (procs s p).exit_code else none, s1)

abbrev pub e_inval : ℕ
e_inval = 3

abbrev pub e_killed : ℕ
e_killed = 9

-- What `do_kill` does with the process it has found.
unfoldable pub kill_proc : (p : ℕ) → Processes → Option (ℕ × Processes)
kill_proc p s = elim (has_flag (procs s p).flags pf_exiting) [
  | true ↦ some (e_killed, s)
  | false ↦ (do
    let old = procs s p
    let s1 = with_procs (update (procs s) p (record old { flags = bit_or old.flags pf_exiting })) s
    elim (has_flag old.wait_state wt_interrupted) [
      | false ↦ some (0, s1)
      | true ↦ (do sched1 ← wakeup_proc p s1.sched; some (0, record s1 { sched = sched1 }))
    ])
]

-- `do_kill`; the result is 0 or the number of the error.
unfoldable pub do_kill : (pid : ℕ) → Processes → Option (ℕ × Processes)
unfolding kill_proc
do_kill pid s = elim (find_proc (procs s) pid s.hash_list) [
  | none ↦ some (e_inval, s)
  | some p ↦ kill_proc p s
]
