-- ===== src/Sched/Timers.antt =====
-- The timer list of sched.c holds differences. Its meaning is the list of absolute deadlines.
use mips.Base.{
  ℕ, ◌+◌, ◌-◌, ◌%◌, ◌^◌, ◌<◌, ◌==◌, ◌≡◌, refl, false, some, List, [], ◌∷◌, All, arith, ap, ltb,
  if◌then◌else◌,
}
use mips.Sched.{
  Timer, State, insert_timer, timer_linked, add_timer, give_ticks, remove_timer, del_timer,
}

-- A timer that goes off `at` ticks from now.
pub record Deadline : Type 0 where
  pub timer : ℕ
  pub proc : ℕ
  pub at : ℕ

abbrev pub deadline : ℕ → Timer → Deadline
deadline now t = record { timer = t.addr; proc = t.proc; at = now + t.expires }

abbrev pub deadlines : ℕ → List Timer → List Deadline
deadlines now [] = []
deadlines now (t ∷ l) = deadline now t ∷ deadlines (now + t.expires) l

-- Before the first that is later: in order of time, and of arrival at one time.
unfoldable pub insert_deadline : Deadline → List Deadline → List Deadline
insert_deadline d [] = d ∷ []
insert_deadline d (e ∷ l) = if ltb d.at e.at then d ∷ e ∷ l else e ∷ insert_deadline d l

unfoldable pub remove_deadline : ℕ → List Deadline → List Deadline
remove_deadline a [] = []
remove_deadline a (d ∷ l) = if a == d.timer then l else d ∷ remove_deadline a l

deadlines-insert_timer :
    (now : ℕ) (t : Timer) (l : List Timer)
    → deadlines now (insert_timer t l) ≡ insert_deadline (deadline now t) (deadlines now l)
unfolding insert_timer insert_deadline
deadlines-insert_timer now t [] = refl
deadlines-insert_timer now t (n ∷ l) = ground (
  arith,
  deadlines-insert_timer (now + n.expires) (record t { expires = t.expires - n.expires }) l,
)

pub deadlines-now :
    (now now' : ℕ) (l : List Timer) → now ≡ now' → deadlines now l ≡ deadlines now' l
deadlines-now now now' l e = ap (λ n. deadlines n l) e

-- A new timer that has ticks left and stands in no list is accepted, and changes the deadlines
-- only by its own, put in order of time behind those at the same time.
pub add_timer-deadlines :
    (t : Timer) (s : State)
    → 0 < t.expires
    → timer_linked t.addr s.timer_list ≡ false
    → (s' : State) × (add_timer t s ≡ some s')
      × (deadlines 0 s'.timer_list ≡ insert_deadline (deadline 0 t) (deadlines 0 s.timer_list))
unfolding add_timer
add_timer-deadlines t s h f = (
  record s { timer_list = insert_timer t s.timer_list },
  ground arith,
  deadlines-insert_timer 0 t s.timer_list,
)

abbrev pub InRange : List Deadline → Type 0
InRange = All (λ d. d.at < 2 ^ 32)

deadlines-give_ticks :
    (now k : ℕ) (l : List Timer)
    → InRange (deadlines (now + k) l)
    → deadlines now (give_ticks k l) ≡ deadlines (now + k) l
unfolding give_ticks
deadlines-give_ticks now k [] r = refl
deadlines-give_ticks now k (n ∷ l) r =
    ground (arith, deadlines-now (now + (n.expires + k) % 2 ^ 32) (now + k + n.expires) l)

deadlines-remove_timer :
    (now a : ℕ) (l : List Timer)
    → InRange (deadlines now l)
    → deadlines now (remove_timer a l) ≡ remove_deadline a (deadlines now l)
unfolding remove_timer remove_deadline
deadlines-remove_timer now a [] r = refl
deadlines-remove_timer now a (n ∷ l) r = ground (
  arith,
  deadlines-remove_timer (now + n.expires) a l r.1,
  deadlines-give_ticks now n.expires l r.1,
  deadlines-now (now + n.expires) now l,
)

-- Deleting a timer leaves the deadlines of all others as they are, while none is 2^32 ticks away.
pub del_timer-deadlines :
    (a : ℕ) (s : State)
    → InRange (deadlines 0 s.timer_list)
    → deadlines 0 (del_timer a s).timer_list ≡ remove_deadline a (deadlines 0 s.timer_list)
unfolding del_timer
del_timer-deadlines a s r = deadlines-remove_timer 0 a s.timer_list r
