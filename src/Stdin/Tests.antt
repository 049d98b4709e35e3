-- ===== src/Stdin/Tests.antt =====
-- A keyboard buffer with two characters, a full one, and the theorems at them.
use mips.Base.{
  ◌+◌, ◌==◌, ◌≡◌, refl, true, false, none, some, [], ◌∷◌, ◌++◌, if◌then◌else◌, arith, count,
}
use mips.Proc.{Proc, ProcState}
use mips.Sync.{Sync}
use mips.Sync.Queue.{IsLinked}
use mips.Sync.Wakeup.{IsRoused}
use mips.Stdin.{wt_kbd, Stdin, put_char, dev_stdin_write}
use mips.Stdin.Fifo.{window, contents, IsBuffer, contents-put_char_full}
use mips.Stdin.Reader.{dev_stdin_write-contents}

abbrev idle_proc : Proc
idle_proc = record {
  state = ProcState.runnable;
  pid = 0;
  runs = 0;
  need_resched = false;
  parent = none;
  flags = 0;
  exit_code = 0;
  wait_state = 0;
  cptr = none;
  yptr = none;
  optr = none;
  time_slice = 0;
}

-- Process 1 runs, and nobody waits.
abbrev sync : Sync
sync = record {
  sched = record {
    procs = λ p. if p == 1 then idle_proc else record idle_proc { state = ProcState.sleeping };
    current = 1;
    idleproc = 0;
    run_list = [];
    proc_num = 0;
    max_time_slice = 20;
    timer_list = [];
  };
  waits = λ w. record { proc = none; wakeup_flags = 0; wait_queue = 0; linked = false };
  queues = λ q. [];
  values = λ q. 0;
}

abbrev two_chars : Stdin
two_chars = record { stdin_buffer = λ i. i + 97; p_rpos = 0; p_wpos = 2; queue = 60; sync = sync }

-- Process 2 waits for a key, with the wait at 70.
abbrev waiting_sync : Sync
waiting_sync = record sync {
  waits = λ w.
      if w == 70
      then record { proc = some 2; wakeup_flags = 0; wait_queue = 60; linked = true }
      else record { proc = none; wakeup_flags = 0; wait_queue = 0; linked = false };
  queues = λ q. if q == 60 then 70 ∷ [] else [];
}

waiting_sync-IsLinked : IsLinked waiting_sync
unfolding count
waiting_sync-IsLinked = record {
  links = λ q w. ground arith;
  owner = λ w on. (2, ground arith);
  asleep = λ w p on own. ground arith;
  single = λ v w p on on' own own'. ground arith;
  queue = record { queued = λ p. ground arith; counted = refl };
}

abbrev awaited : Stdin
awaited = record two_chars { sync = waiting_sync }

dev_stdin_write-contents_example :
    (s' : Stdin) × (dev_stdin_write 99 awaited ≡ some s')
    × (contents s' ≡ contents awaited ++ (99 ∷ []))
    × IsBuffer s'
    × IsRoused (70 ∷ []) wt_kbd waiting_sync s'.sync
    × (s'.sync.queues 60 ≡ [])
dev_stdin_write-contents_example =
    dev_stdin_write-contents 99 awaited refl
      (record { ordered = omega arith; bounded = omega arith }) (omega arith) waiting_sync-IsLinked

-- The whole buffer waits to be read.
abbrev full : Stdin
full = record two_chars { p_wpos = 2048 }

full-contents : contents full ≡ 97 ∷ window 2047 1 (λ i. i + 97)
unfolding window
full-contents = refl

contents-put_char_full_example : contents (put_char 33 full) ≡ 33 ∷ window 2047 1 (λ i. i + 97)
contents-put_char_full_example =
    contents-put_char_full 33 97 (window 2047 1 (λ i. i + 97)) full refl full-contents
