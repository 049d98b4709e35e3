-- ===== src/Proc.antt =====
-- The process descriptor of kern/process/proc.h. An address of a `struct proc_struct` is a number,
-- and the store of descriptors is a function on addresses; NULL is `none`.
use mips.Base.{ℕ, ◌==◌, Bool, true, false, Option, if◌then◌else◌, bit_and, not}

-- `enum proc_state`
pub data ProcState : Type 0 where
  uninit sleeping runnable zombie : ProcState

pub record Proc : Type 0 where
  pub state : ProcState
  pub pid : ℕ
  pub runs : ℕ
  pub need_resched : Bool
  pub parent : Option ℕ
  pub flags : ℕ
  pub exit_code : ℕ
  pub wait_state : ℕ
  pub cptr : Option ℕ
  pub yptr : Option ℕ
  pub optr : Option ℕ
  pub time_slice : ℕ

abbrev pub Table : Type 0
Table = ℕ → Proc

-- `*p = r`
abbrev pub update : Table → ℕ → Proc → Table
update t p r q = if q == p then r else t q

abbrev pub is_runnable : ProcState → Bool
is_runnable ProcState.runnable = true
is_runnable _ = false

abbrev pub is_zombie : ProcState → Bool
is_zombie ProcState.zombie = true
is_zombie _ = false

-- A test `w & mask` of flags.
unfoldable pub has_flag : ℕ → ℕ → Bool
has_flag w mask = not (bit_and w mask == 0)

abbrev pub pf_exiting : ℕ
pf_exiting = 0x1

abbrev pub wt_interrupted : ℕ
wt_interrupted = 0x8000_0000

abbrev pub wt_child : ℕ
wt_child = 0x8000_0001

abbrev pub wt_ksem : ℕ
wt_ksem = 0x100

abbrev pub wt_timer : ℕ
wt_timer = 0x8000_0002
