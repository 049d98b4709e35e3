-- ===== src/Pid/Lookup.antt =====
-- The hash table of processes: what hash_proc and unhash_proc keep, and what find_proc finds.
use mips.Base.{
  ℕ, ◌<◌, ◌^◌, ◌==◌, ◌≡◌, ◌≢◌, refl, Bool, true, false, none, some, List, [], ◌∷◌, ltb,
  if◌then◌else◌, ◌&&◌, one_if, arith, Bool-cases, inl, inr, ◌⊎◌, ◌↔◌, mem, ==_refl, ℕ-cases, subst,
  sym, count, count-erase, mem_of_count, count_of_mem, Option-cases,
}
use mips.Proc.{Table}
use mips.Pid.{
  max_pid, hash_shift, hash32, pid_hashfn, Buckets, hash_proc, unhash_proc, find_in, find_proc,
}

-- The hash of a pid is an index of `hash_list`, which has 1024 buckets.
pub pid_hashfn-lt : (pid : ℕ) → pid_hashfn pid < 2 ^ hash_shift
unfolding pid_hashfn hash32
pid_hashfn-lt pid = omega arith

-- Each live process stands once, in the bucket of its pid.
abbrev pub IsHashed : Table → (ℕ → Bool) → Buckets → Type 0
IsHashed procs live b = (p i : ℕ) → count p (b i) ≡ one_if (live p && i == pid_hashfn (procs p).pid)

abbrev pub changed : ℕ → Bool → (ℕ → Bool) → ℕ → Bool
changed p v live q = if q == p then v else live q

-- With each live process once in the bucket of its pid, `hash_proc` of one that is not live adds
-- it to the live ones of which this holds, and moves no other.
pub hash_proc-IsHashed :
    (procs : Table) (live : ℕ → Bool) (p : ℕ) (b : Buckets)
    → IsHashed procs live b
    → live p ≡ false
    → IsHashed procs (changed p true live) (hash_proc procs p b)
unfolding hash_proc count
hash_proc-IsHashed procs live p b h fresh q i = elim (ℕ-cases q p) [
  | inl e ↦
      subst
        (λ r.
          count r (hash_proc procs p b i)
          ≡ one_if (changed p true live r && i == pid_hashfn (procs r).pid))
        (sym e) (rw (==_refl p) (ground (arith, h p i, ==_refl p)))
  | inr e ↦ ground (arith, h q i)
]

-- With each live process once in the bucket of its pid, `unhash_proc` of a live one takes it from
-- the live ones of which this holds, and moves no other.
pub unhash_proc-IsHashed :
    (procs : Table) (live : ℕ → Bool) (p : ℕ) (b : Buckets)
    → IsHashed procs live b
    → live p ≡ true
    → IsHashed procs (changed p false live) (unhash_proc procs p b)
unfolding unhash_proc
unhash_proc-IsHashed procs live p b h here q i = elim (ℕ-cases q p) [
  | inl e ↦
      subst
        (λ r.
          count r (unhash_proc procs p b i)
          ≡ one_if (changed p false live r && i == pid_hashfn (procs r).pid))
        (sym e) (rw (==_refl p) (erased (Bool-cases (i == pid_hashfn (procs p).pid))))
  | inr e ↦ moved (Bool-cases (i == pid_hashfn (procs p).pid))
]
  where
    bucket : i == pid_hashfn (procs p).pid ≡ true → count p (b i) ≡ 1
    bucket f = ground (arith, h p i)

    erased :
        ((i == pid_hashfn (procs p).pid) ≡ true) ⊎ ((i == pid_hashfn (procs p).pid) ≡ false)
        → count p (unhash_proc procs p b i) ≡ 0
    erased (inl f) =
        rw (f, unhash_proc)
          (ground (
            arith,
            bucket f,
            ==_refl p,
            count-erase p p (b i) (mem_of_count p (b i) (omega (arith, bucket f))),
          ))
    erased (inr f) = rw (f, unhash_proc) (ground (arith, h p i))

    moved :
        ((i == pid_hashfn (procs p).pid) ≡ true) ⊎ ((i == pid_hashfn (procs p).pid) ≡ false)
        → count q (unhash_proc procs p b i)
          ≡ one_if (changed p false live q && i == pid_hashfn (procs q).pid)
    moved (inl f) =
        rw (f, unhash_proc)
          (ground
            (arith, h q i, count-erase q p (b i) (mem_of_count p (b i) (omega (arith, bucket f)))))
    moved (inr f) = rw (f, unhash_proc) (ground (arith, h q i))

-- A process that is found is of the list and has the pid.
find_in-some :
    (procs : Table) (pid p : ℕ) (l : List ℕ)
    → find_in procs pid l ≡ some p
    → (mem p l ≡ true) × ((procs p).pid ≡ pid)
unfolding find_in mem
find_in-some procs pid p [] e = absurd (ground arith)
find_in-some procs pid p (q ∷ l) e = elim (Bool-cases ((procs q).pid == pid)) [
  | inl y ↦
      let s : q ≡ p = ground arith in
      (rw (s, ==_refl p) refl, subst (λ r. (procs r).pid ≡ pid) s (ground arith))
  | inr n ↦ let (a, b) = find_in-some procs pid p l (ground arith) in (ground arith, b)
]

-- None is found only if none has the pid.
find_in-none :
    (procs : Table) (pid p : ℕ) (l : List ℕ)
    → find_in procs pid l ≡ none
    → mem p l ≡ true
    → (procs p).pid ≢ pid
unfolding find_in mem
find_in-none procs pid p [] e m = absurd (ground arith)
find_in-none procs pid p (q ∷ l) e m = elim (Bool-cases ((procs q).pid == pid)) [
  | inl y ↦ absurd (ground arith)
  | inr n ↦ elim (ℕ-cases p q) [
    | inl s ↦ λ k. absurd (ground (arith, subst (λ r. (procs r).pid ≡ pid) s k))
    | inr d ↦ find_in-none procs pid p l (ground arith) (ground arith)
  ]
]

-- With the live processes in the table, and no pid given twice, `find_proc` finds exactly the live
-- process with the pid; and nothing for a pid out of range.
pub find_proc_iff :
    (procs : Table) (live : ℕ → Bool) (b : Buckets) (pid p : ℕ)
    → IsHashed procs live b
    → ((q r : ℕ) → live q ≡ true → live r ≡ true → (procs q).pid ≡ (procs r).pid → q ≡ r)
    → (find_proc procs pid b ≡ some p)
      ↔ ((0 < pid) × (pid < max_pid) × (live p ≡ true) × ((procs p).pid ≡ pid))
unfolding find_proc
find_proc_iff procs live b pid p h unique = (to, from)
  where
    l : List ℕ
    l = b (pid_hashfn pid)

    to :
        find_proc procs pid b ≡ some p
        → (0 < pid) × (pid < max_pid) × (live p ≡ true) × ((procs p).pid ≡ pid)
    to e = elim (Bool-cases (ltb 0 pid && ltb pid max_pid)) [
      | inr out ↦ absurd (ground arith)
      | inl inside ↦
          let (m, s) = find_in-some procs pid p l (ground arith) in
          (ground arith, ground arith, ground (arith, h p (pid_hashfn pid), count_of_mem p l m), s)
    ]

    from :
        (0 < pid) × (pid < max_pid) × (live p ≡ true) × ((procs p).pid ≡ pid)
        → find_proc procs pid b ≡ some p
    from (a, c, d, s) =
        let bucket : count p (b (pid_hashfn (procs p).pid)) ≡ 1 =
          ground (arith, h p (pid_hashfn (procs p).pid), d, ==_refl (pid_hashfn (procs p).pid)) in
        let here : mem p l ≡ true =
          mem_of_count p l
            (subst (λ n. 0 < count p (b (pid_hashfn n))) s (omega (arith, bucket))) in
        elim (Option-cases (find_in procs pid l)) [
          | inl none_found ↦ absurd (find_in-none procs pid p l none_found here s)
          | inr (q, found) ↦
              let (m, k) = find_in-some procs pid q l found in
              let alive : live q ≡ true =
                ground (arith, h q (pid_hashfn pid), count_of_mem q l m) in
              let same : q ≡ p = unique q p alive d (ground arith) in
              let inside : ltb 0 pid && ltb pid max_pid ≡ true = ground arith in
              rw (inside, find_proc) (rw found (rw same refl))
        ]
