-- ===== src/Ring.antt =====
-- The linked lists of kern/include/list.h. An entry is its address, and the two links of every
-- address are a state.
pub mod Chain
pub mod Update
mod Tests
use mips.Base.{ℕ, ◌==◌, Bool, if◌then◌else◌}

pub record Links : Type 0 where
  pub next : ℕ → ℕ
  pub prev : ℕ → ℕ

abbrev pub set_next : (p q : ℕ) → Links → Links
set_next p q h = record h { next = λ r. if r == p then q else h.next r }

abbrev pub set_prev : (p q : ℕ) → Links → Links
set_prev p q h = record h { prev = λ r. if r == p then q else h.prev r }

-- `list_init`
pub list_init : ℕ → Links → Links
list_init elm h = set_prev elm elm (set_next elm elm h)

-- `__list_add`
pub insert_between : (elm prev next : ℕ) → Links → Links
insert_between elm p n h = set_prev elm p (set_next elm n (set_next p elm (set_prev n elm h)))

-- `__list_del`
pub unlink_between : (prev next : ℕ) → Links → Links
unlink_between p n h = set_prev n p (set_next p n h)

pub list_add_before : (listelm elm : ℕ) → Links → Links
unfolding insert_between
list_add_before listelm elm h = insert_between elm (h.prev listelm) listelm h

pub list_add_after : (listelm elm : ℕ) → Links → Links
unfolding insert_between
list_add_after listelm elm h = insert_between elm listelm (h.next listelm) h

-- `list_add`
pub list_add : (listelm elm : ℕ) → Links → Links
unfolding list_add_after
list_add listelm elm h = list_add_after listelm elm h

pub list_del : ℕ → Links → Links
unfolding unlink_between
list_del listelm h = unlink_between (h.prev listelm) (h.next listelm) h

pub list_del_init : ℕ → Links → Links
unfolding list_del list_init
list_del_init listelm h = list_init listelm (list_del listelm h)

pub list_empty : ℕ → Links → Bool
list_empty list h = h.next list == list
