-- ===== src/Sync.antt =====
-- Wait queues and semaphores: kern/sync/wait.c and kern/sync/sem.c over the scheduler. A `wait_t *`, a
-- `wait_queue_t *` and a `semaphore_t *` are numbers; a semaphore's queue has its number. The list of
-- a queue is a List, and whether a link is in some list (`!list_empty`) is the field `linked`.
pub mod Queue
pub mod Semaphore
pub mod Waiting
pub mod Down
pub mod Wakeup
mod Tests
use mips.Base.{
  ℕ, zero, suc, ◌+◌, ◌-◌, ◌==◌, Bool, true, false, Option, none, some, List, [], ◌∷◌, ◌++◌, length,
  erase, ltb, if◌then◌else◌, ◌&&◌, not, ◌>>=◌, ◌>>◌, assert,
}
use mips.Proc.{Proc, ProcState, update, wt_interrupted, wt_ksem}
use mips.Sched.{State, wakeup_proc, schedule}

-- `wait_t`
pub record Wait : Type 0 where
  pub proc : Option ℕ
  pub wakeup_flags : ℕ
  pub wait_queue : ℕ
  pub linked : Bool

pub record Sync : Type 0 where
  pub sched : State
  pub waits : ℕ → Wait
  pub queues : ℕ → List ℕ
  pub values : ℕ → ℕ

abbrev pub put_wait : ℕ → Wait → Sync → Sync
put_wait w r s = record s { waits = λ v. if v == w then r else s.waits v }

abbrev pub put_queue : ℕ → List ℕ → Sync → Sync
put_queue q l s = record s { queues = λ r. if r == q then l else s.queues r }

abbrev pub put_value : ℕ → ℕ → Sync → Sync
put_value q n s = record s { values = λ r. if r == q then n else s.values r }

pub wait_init : (w : ℕ) (proc : ℕ) → Sync → Sync
wait_init w proc s =
    put_wait w
      (record (s.waits w) { proc = some proc; wakeup_flags = wt_interrupted; linked = false }) s

pub wait_queue_init : ℕ → Sync → Sync
wait_queue_init q s = put_queue q [] s

abbrev is_null : Option ℕ → Bool
is_null none = true
is_null (some _) = false

pub wait_queue_add : (q w : ℕ) → Sync → Option Sync
wait_queue_add q w s = do
  assert (not (s.waits w).linked && not (is_null (s.waits w).proc))
  some (
      put_queue q (s.queues q ++ (w ∷ []))
        (put_wait w (record (s.waits w) { wait_queue = q; linked = true }) s))

pub wait_queue_del : (q w : ℕ) → Sync → Option Sync
wait_queue_del q w s = do
  assert ((s.waits w).linked && (s.waits w).wait_queue == q)
  some (put_queue q (erase w (s.queues q)) (put_wait w (record (s.waits w) { linked = false }) s))

abbrev head : List ℕ → Option ℕ
head [] = none
head (w ∷ l) = some w

pub wait_queue_first : ℕ → Sync → Option ℕ
wait_queue_first q s = head (s.queues q)

-- The element behind `w`.
behind : ℕ → List ℕ → Option ℕ
behind w [] = none
behind w (v ∷ l) = if v == w then head l else behind w l

-- The outer `none` is a failed assertion, the inner one NULL.
pub wait_queue_next : (q w : ℕ) → Sync → Option (Option ℕ)
unfolding behind
wait_queue_next q w s = do
  assert ((s.waits w).linked && (s.waits w).wait_queue == q)
  some (behind w (s.queues q))

pub wait_queue_empty : ℕ → Sync → Bool
wait_queue_empty q s = length (s.queues q) == 0

pub wait_in_queue : ℕ → Sync → Bool
wait_in_queue w s = (s.waits w).linked

-- `wakeup_wait`; a wakeup of NULL is a fault.
pub wakeup_wait : (q w flags : ℕ) (del : Bool) → Sync → Option Sync
unfolding wait_queue_del
wakeup_wait q w flags del s = do
  s1 ← (if del then wait_queue_del q w s else some s)
  let s2 = put_wait w (record (s1.waits w) { wakeup_flags = flags }) s1
  p ← (s2.waits w).proc
  sched' ← wakeup_proc p s2.sched
  some (record s2 { sched = sched' })

pub wakeup_first : (q flags : ℕ) (del : Bool) → Sync → Option Sync
unfolding wait_queue_first wakeup_wait
wakeup_first q flags del s = elim (wait_queue_first q s) [
  | none ↦ some s
  | some w ↦ wakeup_wait q w flags del s
]

-- The loop of `wakeup_queue` that deletes, on fuel.
pub drain : (fuel q flags : ℕ) → Sync → Option Sync
unfolding wait_queue_first
drain zero q flags s = none
drain (suc fuel) q flags s = elim (wait_queue_first q s) [
  | none ↦ some s
  | some w ↦ (do s' ← wakeup_wait q w flags true s; drain fuel q flags s')
]

-- The loop that does not delete, from the wait `w` on, on fuel.
walk : (fuel q w flags : ℕ) → Sync → Option Sync
unfolding wakeup_wait wait_queue_next
walk zero q w flags s = none
walk (suc fuel) q w flags s = do
  s' ← wakeup_wait q w flags false s
  next ← wait_queue_next q w s'
  elim next [ none ↦ some s' | some v ↦ walk fuel q v flags s' ]

-- `wakeup_queue`; there is a round for each wait and a last look at the empty queue.
pub wakeup_queue : (q flags : ℕ) (del : Bool) → Sync → Option Sync
unfolding wait_queue_first drain walk
wakeup_queue q flags del s =
    let fuel = length (s.queues q) + 1 in
    elim (wait_queue_first q s) [
      | none ↦ some s
      | some w ↦ if del then drain fuel q flags s else walk fuel q w flags s
    ]

pub wait_current_set : (q w wait_state : ℕ) → Sync → Option Sync
unfolding wait_init wait_queue_add
wait_current_set q w wait_state s =
    let p = s.sched.current in
    let s1 = wait_init w p s in
    let old = s1.sched.procs p in
    let asleep = record old { state = ProcState.sleeping; wait_state = wait_state } in
    let sched' = record s1.sched { procs = update s1.sched.procs p asleep } in
    wait_queue_add q w (record s1 { sched = sched' })

pub wait_current_del : (q w : ℕ) → Sync → Option Sync
unfolding wait_in_queue wait_queue_del
wait_current_del q w s = if wait_in_queue w s then wait_queue_del q w s else some s

pub sem_init : (q value : ℕ) → Sync → Sync
unfolding wait_queue_init
sem_init q value s = wait_queue_init q (put_value q value s)

-- `__up`; the test of the waiter's `wait_state` reads its process.
pub up_with : (q wait_state : ℕ) → Sync → Option Sync
unfolding wait_queue_first
up_with q wait_state s = elim (wait_queue_first q s) [
  | none ↦ some (put_value q (s.values q + 1) s)
  | some w ↦ (do
    p ← (s.waits w).proc
    assert ((s.sched.procs p).wait_state == wait_state)
    wakeup_wait q w wait_state true s)
]

pub up : ℕ → Sync → Option Sync
unfolding up_with
up q s = up_with q wt_ksem s

-- `__down` up to `schedule`, with the wait at `w`: whether it took a unit and is over.
pub down_begin : (q w wait_state : ℕ) → Sync → Option (Bool × Sync)
down_begin q w wait_state s =
    if ltb 0 (s.values q) then some (true, put_value q (s.values q - 1) s) else (do
      s1 ← wait_current_set q w wait_state s
      sched' ← schedule s1.sched
      some (false, record s1 { sched = sched' }))

-- `__down` from the return of `schedule`: its result.
pub down_end : (q w wait_state : ℕ) → Sync → Option (ℕ × Sync)
unfolding wait_current_del
down_end q w wait_state s = do
  s' ← wait_current_del q w s
  let flags = (s'.waits w).wakeup_flags
  some (if flags == wait_state then 0 else flags, s')

-- `down`, whose assertion follows the return.
pub down_return : (q w : ℕ) → Sync → Option Sync
unfolding down_end
down_return q w s = do (flags, s') ← down_end q w wt_ksem s; assert (flags == 0); some s'

pub try_down : ℕ → Sync → Bool × Sync
try_down q s = if ltb 0 (s.values q) then (true, put_value q (s.values q - 1) s) else (false, s)
