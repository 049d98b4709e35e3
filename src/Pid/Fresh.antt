-- ===== src/Pid/Fresh.antt =====
-- The choice of a pid by `get_pid`.
use mips.Base.{
  ℕ, zero, suc, ◌+◌, ◌-◌, ◌<◌, ◌≤◌, ◌==◌, ◌≡◌, refl, Bool, true, false, some, List, [], ◌∷◌, ltb,
  leb, if◌then◌else◌, ◌&&◌, ◌||◌, not, arith, Bool-cases, inl, inr, mem, length, erase,
  length-erase, count-erase, count_of_not_mem, not_mem_of_count,
}
use mips.Pid.{max_pid, max_process, Pids, Scan, scan, wrap, search, get_pid}

-- No element lies in [last, next).
unfoldable pub clear : List ℕ → (last next : ℕ) → Bool
clear [] last next = true
clear (p ∷ l) last next = not (leb last p && ltb p next) && clear l last next

-- What a walk finds.
abbrev IsScanned : List ℕ → (last next : ℕ) → Scan → Type 0
IsScanned l last next (Scan.finished last' next') =
    (last ≤ last') × (last' < next') × (next' ≤ next) × (clear l last' next' ≡ true)
IsScanned l last next (Scan.again last') =
    (last < last') × (last' ≤ next) × ((q : ℕ) → last ≤ q → mem q l ≡ false → last' ≤ q)

-- The walk goes on behind `p` with a smaller range, which leaves out no free number but `p`.
IsScanned-behind :
    (p : ℕ) (l : List ℕ) (last next last1 next1 : ℕ) (r : Scan)
    → last ≤ last1
    → next1 ≤ next
    → (leb last1 p && ltb p next1) ≡ false
    → ((q : ℕ) → last ≤ q → (q == p) ≡ false → last1 ≤ q)
    → IsScanned l last1 next1 r
    → IsScanned (p ∷ l) last next r
unfolding clear mem
IsScanned-behind p l last next last1 next1 (Scan.finished a b) h k o f (x, y, z, w) =
    (omega arith, omega arith, omega arith, ground arith)
IsScanned-behind p l last next last1 next1 (Scan.again a) h k o f (x, y, z) = (
  omega arith,
  omega arith,
  λ q m n. let (n1, n2) = not_or (q == p) (mem q l) n in z q (f q m n1) n2,
)
  where
    not_or : (a b : Bool) → (a || b) ≡ false → (a ≡ false) × (b ≡ false)
    not_or false b e = (refl, e)
    not_or true b e = absurd (ground arith)

scan-IsScanned :
    (l : List ℕ) (last next : ℕ) → last < next → IsScanned l last next (scan l last next)
unfolding scan clear mem
scan-IsScanned [] last next h = (omega arith, omega arith, omega arith, refl)
scan-IsScanned (p ∷ l) last next h = elim (Bool-cases (p == last)) [
  | inl e ↦ elim (Bool-cases (leb next (last + 1))) [
    | inl stop ↦ rw (e, scan) (rw stop (omega arith, ground arith, λ q m n. ground arith))
    | inr on ↦
        rw (e, scan)
          (rw on (
            IsScanned-behind p l last next (last + 1) next (scan l (last + 1) next) (omega arith)
              (omega arith) (ground arith) (λ q m n. ground arith)
              (scan-IsScanned l (last + 1) next (ground arith))))
  ]
  | inr e ↦ elim (Bool-cases (ltb last p && ltb p next)) [
    | inl inside ↦
        rw (e, scan)
          (rw inside (
            IsScanned-behind p l last next last p (scan l last p) (omega arith) (ground arith)
              (ground arith) (λ q m n. m) (scan-IsScanned l last p (ground arith))))
    | inr outside ↦
        rw (e, scan)
          (rw outside (
            IsScanned-behind p l last next last next (scan l last next) (omega arith) (omega arith)
              (ground arith) (λ q m n. m) (scan-IsScanned l last next h)))
  ]
]

not_mem_of_clear :
    (l : List ℕ) (last next : ℕ) → last < next → clear l last next ≡ true → mem last l ≡ false
unfolding clear mem
not_mem_of_clear [] last next h c = refl
not_mem_of_clear (p ∷ l) last next h c = ground (arith, not_mem_of_clear l last next h)

clear_shrink :
    (l : List ℕ) (last next : ℕ) → clear l last next ≡ true → clear l (last + 1) next ≡ true
unfolding clear
clear_shrink [] last next c = refl
clear_shrink (p ∷ l) last next c = ground (arith, clear_shrink l last next)

-- How far the free number `q` lies ahead of `last`, around the circle of pids.
abbrev ahead : (q last : ℕ) → ℕ
ahead q last = if leb last q then q - last else (q + max_pid) - last

-- What `get_pid` answers: a number from 1 to MAX_PID - 1 that is not in use.
pub record IsFresh (l : List ℕ) (s : Pids) : Type 0 where
  pub positive : 1 ≤ s.last_pid
  pub bounded : s.last_pid < max_pid
  pub unused : mem s.last_pid l ≡ false

-- What `get_pid` keeps between calls: no pid lies strictly between the two variables.
pub record IsSafe (l : List ℕ) (s : Pids) : Type 0 where
  pub gap : clear l (s.last_pid + 1) s.next_safe ≡ true
  pub within : s.next_safe ≤ max_pid

search-IsFresh :
    (fuel : ℕ) (l : List ℕ) (q last : ℕ)
    → mem q l ≡ false
    → 1 ≤ q
    → q < max_pid
    → 1 ≤ last
    → last < max_pid
    → ahead q last < fuel
    → (s : Pids) × (search fuel l last ≡ some s) × IsFresh l s × IsSafe l s
unfolding search
search-IsFresh zero l q last n a b c d e = absurd (omega arith)
search-IsFresh (suc fuel) l q last n a b c d e =
    after (scan l last max_pid) refl (scan-IsScanned l last max_pid d)
      (λ last'. search-IsFresh fuel l q last' n a b)
  where
    after :
        (r : Scan)
        → scan l last max_pid ≡ r
        → IsScanned l last max_pid r
        → ((last' : ℕ)
            → 1 ≤ last'
            → last' < max_pid
            → ahead q last' < fuel
            → (s : Pids) × (search fuel l last' ≡ some s) × IsFresh l s × IsSafe l s)
        → (s : Pids) × (search (suc fuel) l last ≡ some s) × IsFresh l s × IsSafe l s
    after (Scan.finished last' next') run (x, y, z, w) next_walk = (
      record { last_pid = last'; next_safe = next' },
      rw (run, search) refl,
      record {
        positive = omega arith;
        bounded = omega arith;
        unused = not_mem_of_clear l last' next' y w;
      },
      record { gap = clear_shrink l last' next' w; within = z },
    )
    after (Scan.again last') run (x, y, z) next_walk =
        rw (run, search)
          (next_walk (wrap last') (ground arith) (ground arith) (ground (arith, z q)))

-- Fewer than `n` pids leave one of the numbers from 1 to `n` free.
free_pid : (n : ℕ) (l : List ℕ) → length l < n → (q : ℕ) × (1 ≤ q) × (q ≤ n) × (mem q l ≡ false)
free_pid zero l h = absurd (omega arith)
free_pid (suc n) l h = elim (Bool-cases (mem (suc n) l)) [
  | inr e ↦ (suc n, omega arith, omega arith, e)
  | inl e ↦
      let (q, a, b, c) = free_pid n (erase (suc n) l) (omega (arith, length-erase (suc n) l e)) in
      (
        q,
        a,
        omega arith,
        not_mem_of_count q l
            (ground (arith, count-erase q (suc n) l e, count_of_not_mem q (erase (suc n) l) c)),
      )
]

-- With no more than MAX_PROCESS pids in use, and none between its two variables, `get_pid`
-- returns, with a number from 1 to MAX_PID - 1 that is not in use; and no pid, the new one
-- included, lies between its variables then.
pub get_pid-IsFresh :
    (l : List ℕ) (s : Pids)
    → IsSafe l s
    → length l ≤ max_process
    → (s' : Pids) × (get_pid l s ≡ some s') × IsFresh l s' × IsSafe (s'.last_pid ∷ l) s'
unfolding get_pid clear
get_pid-IsFresh l s safe few =
    let last = s.last_pid + 1 in
    let (q, a, c, n) = free_pid (max_pid - 1) l (omega arith) in
    let b : q < max_pid = omega arith in
    elim (Bool-cases (leb max_pid last)) [
      | inl over ↦
          let (s', run, f, g) =
            search-IsFresh max_pid l q 1 n a b (omega arith) (omega arith) (ground arith) in
          (s', rw (over, get_pid) run, f, record { gap = ground (arith, g.gap); within = g.within })
      | inr inside ↦ elim (Bool-cases (leb s.next_safe last)) [
        | inl unsafe ↦
            let (s', run, f, g) =
              search-IsFresh max_pid l q last n a b (omega arith) (ground arith) (ground arith) in
            (
              s',
              rw (inside, get_pid) (rw unsafe run),
              f,
              record { gap = ground (arith, g.gap); within = g.within },
            )
        | inr quick ↦ (
          record s { last_pid = last },
          rw (inside, get_pid) (rw quick refl),
          record {
            positive = omega arith;
            bounded = ground arith;
            unused = not_mem_of_clear l last s.next_safe (ground arith) safe.gap;
          },
          record {
            gap = ground (arith, clear_shrink l last s.next_safe safe.gap);
            within = safe.within;
          },
        )
      ]
    ]
