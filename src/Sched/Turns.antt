-- ===== src/Sched/Turns.antt =====
-- The turns of the processes in line: `schedule`, called again and again.
use mips.Base.{
  ℕ, zero, suc, ◌==◌, ◌≡◌, refl, Option, some, List, [], ◌∷◌, ◌++◌, ◌&&◌, not, ◌>>=◌, arith, inl,
  inr, Bool-cases, get_elem?,
}
use mips.Proc.{is_runnable}
use mips.Sched.{State, schedule}
use mips.Sched.RunQueue.{IsQueue, IsSwitched, candidates, schedule-IsSwitched}

-- `n` calls of `schedule` on end.
pub schedule_times : ℕ → State → Option State
schedule_times zero s = some s
schedule_times (suc n) s = do s' ← schedule s; schedule_times n s'

get_elem?-append :
    (xs ys : List ℕ) (i p : ℕ) → get_elem? xs i ≡ some p → get_elem? (xs ++ ys) i ≡ some p
get_elem?-append [] ys i p e = absurd (ground arith)
get_elem?-append (x ∷ xs) ys zero p e = e
get_elem?-append (x ∷ xs) ys (suc i) p e = get_elem?-append xs ys i p e

-- A process in line is a candidate at the same place.
get_elem?-candidates :
    (s : State) (i p : ℕ) → get_elem? s.run_list i ≡ some p → get_elem? (candidates s) i ≡ some p
get_elem?-candidates s i p e =
    elim (Bool-cases (is_runnable (s.procs s.current).state && not (s.current == s.idleproc))) [
      | inl r ↦ rw r (get_elem?-append s.run_list (s.current ∷ []) i p e)
      | inr r ↦ rw r e
    ]

-- The line after a switch, with the process that runs now at its head.
get_elem?-line :
    (s s' : State) (k p : ℕ)
    → IsSwitched s s'
    → get_elem? s.run_list k ≡ some p
    → get_elem? (s'.current ∷ s'.run_list) k ≡ some p
get_elem?-line s s' k p d e =
    let c = get_elem?-candidates s k p e in
    elim d.line [ inl a ↦ rw a c | inr (a, b, f) ↦ absurd (ground (arith, rw a at c)) ]

-- No process in line is passed over: with an exact queue, the one with `k` others before it runs
-- after `k + 1` calls of `schedule`, and none of these fails an assertion.
pub schedule_times-current :
    (k p : ℕ) (s : State)
    → IsQueue s
    → get_elem? s.run_list k ≡ some p
    → (t : State) × (schedule_times (suc k) s ≡ some t) × (t.current ≡ p) × IsQueue t
unfolding schedule_times
schedule_times-current zero p s v e =
    let (s', run, d) = schedule-IsSwitched s v in
    (s', rw run refl, ground (arith, get_elem?-line s s' zero p d e), d.queue)
schedule_times-current (suc k) p s v e =
    let (s', run, d) = schedule-IsSwitched s v in
    let (t, go, c, q) = schedule_times-current k p s' d.queue (get_elem?-line s s' (suc k) p d e) in
    (t, rw run go, c, q)
