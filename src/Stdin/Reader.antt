-- ===== src/Stdin/Reader.antt =====
-- The two ends of the keyboard device over the wait queues: the key that wakes, the read that sleeps.
use mips.Base.{
  ℕ, ◌+◌, ◌<◌, ◌==◌, ◌≡◌, refl, true, false, some, List, [], ◌∷◌, ◌++◌, length, arith, Bool-cases,
  inl, inr, sym, ==_refl, subst,
}
use mips.Proc.{is_runnable}
use mips.Sync.{wait_queue_empty}
use mips.Sync.Queue.{eq_nil_of_wait_queue_empty, IsLinked}
use mips.Sync.Wakeup.{IsRoused, nobody-IsRoused, wakeup_queue-IsRoused}
use mips.Sync.Waiting.{waiting_state, wait_current_set-waiting_state, schedule-IsSwitchedAway}
use mips.Stdin.{Stdin, stdin_bufsize, wt_kbd, put_char, dev_stdin_write, read_ready, read_begin}
use mips.Stdin.Fifo.{contents, IsBuffer, contents-put_char, read_ready-contents, read_ready-sync}

-- With wait queues in order, and a key that is not NUL while there is room: `dev_stdin_write`
-- returns with the queues in order, the character stands behind those that wait to be read, and
-- every reader that waited is out of the queue, flagged with the key and runnable; no process has
-- stopped, and the other waits are as before.
pub dev_stdin_write-contents :
    (c : ℕ) (s : Stdin)
    → (c == 0) ≡ false
    → IsBuffer s
    → s.p_wpos < s.p_rpos + stdin_bufsize
    → IsLinked s.sync
    → (s' : Stdin) × (dev_stdin_write c s ≡ some s')
      × (contents s' ≡ contents s ++ (c ∷ []))
      × IsBuffer s'
      × IsRoused (s.sync.queues s.queue) wt_kbd s.sync s'.sync
      × (s'.sync.queues s.queue ≡ [])
unfolding dev_stdin_write put_char
dev_stdin_write-contents c s d i room linked =
    let s1 = put_char c s in
    let (a, b) = contents-put_char c s i room in
    elim (Bool-cases (wait_queue_empty s.queue s1.sync)) [
      | inl e ↦
          let nobody = eq_nil_of_wait_queue_empty s.queue s.sync e in
          (
            s1,
            rw d (rw e refl),
            a,
            b,
            subst (λ l. IsRoused l wt_kbd s.sync s.sync) (sym nobody)
                (nobody-IsRoused wt_kbd s.sync linked),
            nobody,
          )
      | inr e ↦
          let (sync', run, k, none_left) = wakeup_queue-IsRoused s.queue wt_kbd s.sync linked in
          (
            record s1 { sync = sync' },
            rw d (rw e (rw run refl)),
            a,
            record { ordered = b.ordered; bounded = b.bounded },
            k,
            none_left,
          )
    ]

-- A read of `left` characters by a running process comes to its return or to the switch, with no
-- failed assertion: it takes characters from the front, and only when there are no more, and some
-- are still to be had, it sleeps at the queue.
pub read_begin-contents :
    (w left : ℕ) (s : Stdin)
    → IsBuffer s
    → IsLinked s.sync
    → (s.sync.waits w).linked ≡ false
    → is_runnable (s.sync.sched.procs s.sync.sched.current).state ≡ true
    → (r : List ℕ × ℕ × Stdin) × (read_begin w left s ≡ some r)
      × (contents s ≡ r.0 ++ contents r.2)
      × (length r.0 + r.1 ≡ left)
      × (0 < r.1
          → (contents r.2 ≡ [])
            × (r.2.sync.queues s.queue ≡ s.sync.queues s.queue ++ (w ∷ []))
            × (is_runnable (r.2.sync.sched.procs s.sync.sched.current).state ≡ false))
      × IsBuffer r.2
      × IsLinked r.2.sync
unfolding read_begin
read_begin-contents w left s i linked off run =
    let got = read_ready left s in
    let (a, b, c, d) = read_ready-contents left s i in
    elim (Bool-cases (got.1 == 0)) [
      | inl e ↦ (
        (got.0, 0, got.2),
        rw (e, read_begin) refl,
        a,
        ground (arith, b),
        λ h. absurd (omega (arith, h)),
        d,
        subst IsLinked (sym (read_ready-sync left s)) linked,
      )
      | inr e ↦
          let (t, k) = schedule-IsSwitchedAway s.queue w wt_kbd s.sync linked off run in
          let slept = waiting_state s.queue w wt_kbd s.sync in
          (
            (got.0, got.1, record (got.2) { sync = record slept { sched = t } }),
            rw (e, read_begin)
                (rw (wait_current_set-waiting_state s.queue w wt_kbd s.sync) (rw k.run refl)),
            a,
            b,
            λ h. (
              c h,
              rw (==_refl s.queue) refl,
              ground (arith, k.same s.sync.sched.current, ==_refl s.sync.sched.current),
            ),
            record { ordered = d.ordered; bounded = d.bounded },
            k.linked,
          )
    ]
