-- ===== src/Stdin.antt =====
-- The keyboard device: kern/fs/devs/dev_stdin.c, over the wait queues of Sync. The buffer is a
-- function on indices, the offsets are natural numbers, and `wait_queue` is the queue `queue`.
pub mod Fifo
pub mod Reader
mod Tests
use mips.Base.{
  ℕ, zero, suc, ◌+◌, ◌-◌, ◌%◌, ◌==◌, Bool, true, false, Option, none, some, List, [], ◌∷◌, ltb,
  if◌then◌else◌, not, ◌>>=◌,
}
use mips.Base.Results.{Result, ok, err}
use mips.Sched.{schedule}
use mips.Sync.{Sync, wait_queue_empty, wakeup_queue, wait_current_set, wait_current_del}

-- STDIN_BUFSIZE
abbrev pub stdin_bufsize : ℕ
stdin_bufsize = 2048

-- WT_KBD
abbrev pub wt_kbd : ℕ
wt_kbd = 0x8000_0004

pub record Stdin : Type 0 where
  pub stdin_buffer : ℕ → ℕ
  pub p_rpos : ℕ
  pub p_wpos : ℕ
  pub queue : ℕ
  pub sync : Sync

-- The store of the character, and the step of `p_wpos` while there is room.
pub put_char : ℕ → Stdin → Stdin
put_char c s = record s {
  stdin_buffer = λ i. if i == s.p_wpos % stdin_bufsize then c else s.stdin_buffer i;
  p_wpos = if ltb (s.p_wpos - s.p_rpos) stdin_bufsize then s.p_wpos + 1 else s.p_wpos;
}

pub dev_stdin_write : ℕ → Stdin → Option Stdin
unfolding put_char
dev_stdin_write c s =
    if c == 0
    then some s
    else let s1 = put_char c s in
      if not (wait_queue_empty s.queue s1.sync)
      then (do sync' ← wakeup_queue s.queue wt_kbd true s1.sync; some (record s1 { sync = sync' }))
      else some s1

-- The rounds of the loop that find a character: what is read, and the rounds left.
pub read_ready : (left : ℕ) → Stdin → List ℕ × ℕ × Stdin
read_ready zero s = ([], 0, s)
read_ready (suc left) s = elim (ltb s.p_rpos s.p_wpos) [
  | false ↦ ([], suc left, s)
  | true ↦
      let rest = read_ready left (record s { p_rpos = s.p_rpos + 1 }) in
      (s.stdin_buffer (s.p_rpos % stdin_bufsize) ∷ rest.0, rest.1, rest.2)
]

-- `dev_stdin_read` up to its return or to `schedule`, with the wait at `w` and `left` characters
-- to go: what is read, the characters still to go, of which there are none on return.
pub read_begin : (w left : ℕ) → Stdin → Option (List ℕ × ℕ × Stdin)
unfolding read_ready
read_begin w left s =
    let (got, more, s1) = read_ready left s in
    if more == 0 then some (got, 0, s1) else (do
      sync1 ← wait_current_set s.queue w wt_kbd s.sync
      sched' ← schedule sync1.sched
      some (got, more, record s1 { sync = record sync1 { sched = sched' } }))

-- From the return of `schedule`: another try after a key, the return after any other wakeup.
pub read_resume : (w left : ℕ) → Stdin → Option (List ℕ × ℕ × Stdin)
unfolding read_begin
read_resume w left s = do
  sync1 ← wait_current_del s.queue w s.sync
  let s1 = record s { sync = sync1 }
  if (sync1.waits w).wakeup_flags == wt_kbd then read_begin w left s1 else some ([], 0, s1)

-- `stdin_open`: only O_RDONLY.
pub stdin_open : ℕ → Result ℕ
stdin_open open_flags = if open_flags == 0 then ok 0 else err 3
