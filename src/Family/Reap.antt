-- ===== src/Family/Reap.antt =====
-- `do_wait` on any child: the walk over the children of a process, and the end of the one it finds.
use mips.Base.{
  ℕ, zero, suc, ◌-◌, ◌==◌, ◌≡◌, ◌≤◌, refl, ap, ◌∙◌, Bool, true, false, Option, none, some, List, [],
  ◌∷◌, erase, mem, if◌then◌else◌, arith, inl, inr, Bool-cases, ◌||◌, Option-cases, sym, count,
  count-erase, mem_of_count, not_mem_of_count, ==_refl, one_if,
}
use mips.Proc.{Table, is_zombie}
use mips.Pid.{Buckets, unhash_proc}
use mips.Pid.Lookup.{IsHashed, changed, unhash_proc-IsHashed}
use mips.Family.{
  Processes, procs, with_procs, find_zombie, reap, link_older, link_younger, drop_child,
  remove_links,
}
use mips.Family.Chain.{entries, first, IsChain, IsFamily}
use mips.Family.Unlink.{shrunk, remove_links-IsFamily}

-- The first zombie of a list.
abbrev pub first_zombie : Table → List ℕ → Option ℕ
first_zombie t [] = none
first_zombie t (p ∷ l) = if is_zombie (t p).state then some p else first_zombie t l

abbrev pub has_entry : List ℕ → Bool
has_entry [] = false
has_entry (p ∷ l) = true

walk_on :
    (t : Table) (p n : ℕ) (b : Bool)
    → is_zombie (t p).state ≡ false
    → find_zombie (suc n) t b (some p) ≡ find_zombie n t true (t p).optr
unfolding find_zombie
walk_on t p n b z = rw (find_zombie, z) refl

found_from :
    (t : Table) (young : Option ℕ) (l : List ℕ) (n : ℕ) (b : Bool)
    → IsChain t young l
    → entries l ≤ n
    → find_zombie n t b (first l) ≡ some (b || has_entry l, first_zombie t l)
unfolding find_zombie
found_from t young [] n b a e = ground arith
found_from t young (p ∷ l) zero b a e = absurd (omega (arith, e))
found_from t young (p ∷ l) (suc n) b (y, o, a) e = elim (Bool-cases (is_zombie (t p).state)) [
  | inl z ↦ rw z (ground arith)
  | inr z ↦
      walk_on t p n b z
      ∙ ap (find_zombie n t true) o
      ∙ found_from t (some p) l n true a (omega (arith, e))
      ∙ ground (arith, z)
]

-- With links that say which children each process has, and fuel for the children of `q`, the walk of
-- `do_wait` over the children of `q` ends: it says whether there is a child, and it
-- gives the youngest child that is a zombie, or none when no child is one.
pub find_zombie-first_zombie :
    (t : Table) (children : ℕ → List ℕ) (q n : ℕ)
    → IsFamily t children
    → entries (children q) ≤ n
    → find_zombie n t false (t q).cptr ≡ some (has_entry (children q), first_zombie t (children q))
find_zombie-first_zombie t children q n f e =
    rw (f.youngest q) (found_from t none (children q) n false (f.chain q) e)

first_zombie-mem : (t : Table) (p : ℕ) (l : List ℕ) → first_zombie t l ≡ some p → mem p l ≡ true
unfolding mem
first_zombie-mem t p [] e = absurd (ground (arith, e))
first_zombie-mem t p (o ∷ l) e = elim (Bool-cases (is_zombie (t o).state)) [
  | inl z ↦ ground (arith, e, z)
  | inr z ↦ let rest = first_zombie-mem t p l (ground (arith, e, z)) in ground (arith, rest)
]

-- The links of a child that goes keep the pids.
older-pid : (o v : Option ℕ) (t : Table) (x : ℕ) → ((link_older o v t) x).pid ≡ (t x).pid
unfolding link_older
older-pid none v t x = refl
older-pid (some o) v t x = ground arith

younger-pid :
    (y o q : Option ℕ) (t u : Table) (x : ℕ) → link_younger y o q t ≡ some u → (u x).pid ≡ (t x).pid
unfolding link_younger
younger-pid none o none t u x e = absurd (ground (arith, e))
younger-pid none o (some q) t u x e = ground (arith, e)
younger-pid (some y) o q t u x e = ground (arith, e)

remove_links-pid :
    (p : ℕ) (s s' : Processes) (x : ℕ)
    → remove_links p s ≡ some s'
    → (procs s' x).pid ≡ (procs s x).pid
unfolding remove_links drop_child
remove_links-pid p s s' x e =
    let t = procs s in
    let t1 = link_older (t p).optr (t p).yptr t in
    elim (Option-cases (link_younger (t1 p).yptr (t1 p).optr (t1 p).parent t1)) [
      | inl stop ↦ absurd (ground (arith, e, stop))
      | inr (u, run) ↦
          let after : Processes = record (with_procs u s) {
            proc_list = erase p s.proc_list;
            nr_process = s.nr_process - 1;
          } in
          let end : some s' ≡ some after = sym e ∙ rw run refl in
          let same : procs s' ≡ u = ap (λ o. elim o [ none ↦ t | some v ↦ procs v ]) end in
          ap (λ v. (v x).pid) same
          ∙ younger-pid (t1 p).yptr (t1 p).optr (t1 p).parent t1 u x run
          ∙ older-pid (t p).optr (t p).yptr t x
    ]

-- `p` is gone: from the children of `q`, from the hash table and from the list.
pub record IsReaped (p q : ℕ) (live : ℕ → Bool) (children : ℕ → List ℕ) (s s' : Processes)
    : Type 0 where
  pub family : IsFamily (procs s') (shrunk p q children)
  pub hashed : IsHashed (procs s') (changed p false live) s'.hash_list
  pub unhashed : (i : ℕ) → mem p (s'.hash_list i) ≡ false
  pub unlisted : mem p s'.proc_list ≡ false
  pub listed : (r : ℕ) → (r == p) ≡ false → count r s'.proc_list ≡ count r s.proc_list
  pub counted : s'.nr_process ≡ s.nr_process - 1

-- With links that say which children each process has, each live process once in the bucket of its
-- pid, and a live zombie that is the youngest one among the children of `q`, is listed once and is
-- neither `idleproc` nor `initproc`, the end of `do_wait` returns and stores its exit code, unless
-- the pointer for it is null. It is no longer a child of `q`, the other children of all processes
-- are as before and in the same order; it is in no bucket of the hash table, where all other live
-- processes still are; it is not listed, while the others still are, and one process less is counted.
pub reap-IsReaped :
    (code_store : Bool) (s : Processes) (children : ℕ → List ℕ) (live : ℕ → Bool) (p q : ℕ)
    → IsFamily (procs s) children
    → IsHashed (procs s) live s.hash_list
    → live p ≡ true
    → count p s.proc_list ≡ 1
    → first_zombie (procs s) (children q) ≡ some p
    → (p == s.sched.idleproc) ≡ false
    → (p == s.initproc) ≡ false
    → (s' : Processes) × (reap code_store p s
        ≡ some (if code_store then some (procs s p).exit_code else none, s'))
      × IsReaped p q live children s s'
unfolding reap
reap-IsReaped code_store s children live p q f h alive once z i j =
    let b : Buckets = unhash_proc (procs s) p s.hash_list in
    let s0 : Processes = record s { hash_list = b } in
    let here = first_zombie-mem (procs s) p (children q) z in
    let (s', run, g, hashed, listed, counted) = remove_links-IsFamily s0 children p q f here in
    let gone : IsHashed (procs s) (changed p false live) b =
      unhash_proc-IsHashed (procs s) live p s.hash_list h alive in
    let mine : mem p s.proc_list ≡ true = mem_of_count p s.proc_list (omega (arith, once)) in
    let pid : (x : ℕ) → (procs s' x).pid ≡ (procs s x).pid = λ x. remove_links-pid p s0 s' x run in
    (
      s',
      rw (i, j, run) refl,
      record {
        family = g;
        hashed = λ r k. rw (hashed, pid r) (gone r k);
        unhashed = λ k. rw hashed (not_mem_of_count p (b k) (gone p k ∙ rw (==_refl p) refl));
        unlisted = rw listed (
            not_mem_of_count p (erase p s.proc_list)
              (omega (arith, count-erase p p s.proc_list mine, once, ap one_if (==_refl p))));
        listed = λ r n. rw listed (omega (arith, count-erase r p s.proc_list mine, ap one_if n));
        counted = counted;
      },
    )
