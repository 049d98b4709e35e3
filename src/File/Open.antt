-- ===== src/File/Open.antt =====
-- `filemap_alloc` and `file_open`: which descriptor they give, and the reference counts.
use mips.Base.{
  ℕ, zero, suc, ◌+◌, ◌<◌, ◌≤◌, ◌==◌, ◌≡◌, refl, Bool, true, false, none, some, List, arith,
  Bool-cases, inl, inr, subst, Option-cases, ==_refl, ℕ-cases,
}
use mips.Base.Int.{ℤ, pos, negsuc}
use mips.File.{
  Status, File, Files, Vfs, Result, ok, err, put, is_unused, is_init, is_opened, nentry, e_inval,
  no_fd, find_unused, alloc_index, filemap_alloc, filemap_open, filemap_free,
}
use mips.File.Calls.{finish_open, open_node, access_mode, start_offset, file_open}
use mips.File.Count.{Map, IsCounted, IsCounted-keep}
use mips.File.Descriptors.{Result-cases}

-- The table while file `i`, which was unused, is being set up.
pub record IsClaimed (busy : ℕ → ℕ) (i : ℕ) (m : Map) : Type 0 where
  pub counted : IsCounted busy m
  pub within : i < nentry
  pub claimed : is_init (m i).status ≡ true
  pub fresh : (m i).open_count ≡ 0
  pub idle : busy i ≡ 0

module _ {W : Type 0} where
  find_unused-some :
      (left i j : ℕ) (s : Files W)
      → find_unused left i s ≡ some j
      → (i ≤ j) × (j < i + left) × (is_unused (s.filemap j).status ≡ true)
  unfolding find_unused
  find_unused-some zero i j s e = absurd (ground arith)
  find_unused-some (suc left) i j s e = elim (Bool-cases (is_unused (s.filemap i).status)) [
    | inl u ↦ ground arith
    | inr u ↦
        let (p, q, r) = find_unused-some left (i + 1) j s (ground arith) in
        (omega arith, omega arith, r)
  ]

  find_unused-lowest :
      (left i j k : ℕ) (s : Files W)
      → find_unused left i s ≡ some j
      → i ≤ k
      → k < j
      → is_unused (s.filemap k).status ≡ false
  unfolding find_unused
  find_unused-lowest zero i j k s e p q = absurd (ground arith)
  find_unused-lowest (suc left) i j k s e p q = elim (Bool-cases (is_unused (s.filemap i).status)) [
    | inl u ↦ absurd (ground arith)
    | inr u ↦ elim (ℕ-cases i k) [
      | inl m ↦ rw (← m) u
      | inr m ↦ find_unused-lowest left (i + 1) j k s (ground arith) (omega arith) q
    ]
  ]

  alloc_index-no_fd :
      (i : ℕ) (s : Files W) → alloc_index no_fd s ≡ ok i → find_unused nentry 0 s ≡ some i
  unfolding alloc_index
  alloc_index-no_fd i s e = ground arith

  pub alloc_index-ok :
      (fd : ℤ) (i : ℕ) (s : Files W)
      → alloc_index fd s ≡ ok i
      → (i < nentry) × (is_unused (s.filemap i).status ≡ true)
  unfolding alloc_index
  alloc_index-ok (pos n) i s e = ground arith
  alloc_index-ok (negsuc n) i s e = elim (Option-cases (find_unused nentry 0 s)) [
    | inl none_left ↦ absurd (ground arith)
    | inr (j, found) ↦ let (p, q, r) = find_unused-some nentry 0 j s found in ground arith
  ]

  -- The outcome of `filemap_alloc`: an error and no change, or a claimed file.
  pub data IsAllocated (busy : ℕ → ℕ) (fd : ℤ) (s : Files W) (r : Result ℕ × Files W) : Type 0 where
    refused : (e : ℕ) → alloc_index fd s ≡ err e → r ≡ (err e, s) → IsAllocated busy fd s r
    granted :
        (i : ℕ) (s' : Files W)
        → alloc_index fd s ≡ ok i
        → r ≡ (ok i, s')
        → IsClaimed busy i s'.filemap
        → ((j : ℕ) → (j == i) ≡ false → s'.filemap j ≡ s.filemap j)
        → IsAllocated busy fd s r

  pub filemap_alloc-IsAllocated :
      (busy : ℕ → ℕ) (fd : ℤ) (s : Files W)
      → IsCounted busy s.filemap
      → (r : Result ℕ × Files W) × (filemap_alloc fd s ≡ some r) × IsAllocated busy fd s r
  unfolding filemap_alloc
  filemap_alloc-IsAllocated busy fd s c = elim (Result-cases (alloc_index fd s)) [
    | inl (e, q) ↦ ((err e, s), rw (q, filemap_alloc), refused e q refl)
    | inr (i, q) ↦
        let (k, u) = alloc_index-ok fd i s q in
        let h = c i k in
        let f : File = record (s.filemap i) { status = Status.init; node = none } in
        let free : busy i ≡ 0 = ground (arith, h.idle) in
        let zero_count : ((s.filemap i).open_count == 0) ≡ true = ground (arith, h.counted) in
        let r = ==_refl i in
        (
          (ok i, put i f s),
          rw (q, filemap_alloc) (rw zero_count),
          granted i (put i f s) q refl
              (record {
                counted =
                    IsCounted-keep busy i s.filemap (put i f s).filemap c (rw r (ground arith))
                      (λ j d. rw d);
                within = k;
                claimed = rw r;
                fresh = rw r (ground (arith, h.counted));
                idle = free;
              })
              (λ j d. rw d),
        )
  ]

module _ {W : Type 0} (v : Vfs W) where
  open v use {open_path, close, ref_inc, open_inc, fstat}

  finish_open-IsCounted :
      (busy : ℕ → ℕ) (i n at : ℕ) (mode : Bool × Bool) (s : Files W)
      → IsClaimed busy i s.filemap
      → (s' : Files W) × (finish_open v i n at mode s ≡ some (ok i, s'))
        × IsCounted busy s'.filemap
        × (is_opened (s'.filemap i).status ≡ true)
  unfolding finish_open filemap_open
  finish_open-IsCounted busy i n at (r, w) s c =
      let g = s.filemap i in
      let h = c.counted i c.within in
      let q = ==_refl i in
      let f : File = record g { offset = at; node = some n; readable = r; writable = w } in
      let s1 : Files W = put i f s in
      let s2 : Files W =
        put i (record f { status = Status.opened; open_count = g.open_count + 1 }) s1 in
      (
        s2,
        rw q (ground (arith, c.claimed, h.number, q)),
        IsCounted-keep busy i s.filemap s2.filemap c.counted
            (rw q (ground (arith, c.fresh, c.idle, h.number))) (λ j d. rw d),
        rw q,
      )

  -- A file that was claimed in vain is free again.
  filemap_free-IsCounted :
      (busy : ℕ → ℕ) (i : ℕ) (s : Files W)
      → IsClaimed busy i s.filemap
      → (s' : Files W) × (filemap_free v i s ≡ some s') × IsCounted busy s'.filemap
  unfolding filemap_free
  filemap_free-IsCounted busy i s c =
      let g = s.filemap i in
      let h = c.counted i c.within in
      let s1 : Files W = put i (record g { status = Status.unused }) s in
      (
        s1,
        ground (arith, c.claimed, c.fresh),
        IsCounted-keep busy i s.filemap s1.filemap c.counted
            (rw (==_refl i) (ground (arith, c.fresh, c.idle, h.number))) (λ j d. rw d),
      )

  -- What `file_open` returns: the calls at work are counted as before, and a descriptor that it
  -- gives was the lowest unused one and is open.
  pub record IsOutcome (busy : ℕ → ℕ) (s : Files W) (r : Result ℕ × Files W) : Type 0 where
    pub counted : IsCounted busy r.1.filemap
    pub was_unused : (i : ℕ) → r.0 ≡ ok i → (i < nentry) × (is_unused (s.filemap i).status ≡ true)
    pub lowest : (i k : ℕ) → r.0 ≡ ok i → k < i → is_unused (s.filemap k).status ≡ false
    pub now_open : (i : ℕ) → r.0 ≡ ok i → is_opened (r.1.filemap i).status ≡ true

  failure :
      (busy : ℕ → ℕ) (e : ℕ) (s s' : Files W)
      → IsCounted busy s'.filemap
      → IsOutcome busy s (err e, s')
  failure busy e s s' c = record {
    counted = c;
    was_unused = λ i q. absurd (cc);
    lowest = λ i k q. absurd (cc);
    now_open = λ i q. absurd (cc);
  }

  success :
      (busy : ℕ → ℕ) (i : ℕ) (s s' : Files W)
      → alloc_index no_fd s ≡ ok i
      → IsCounted busy s'.filemap
      → is_opened (s'.filemap i).status ≡ true
      → IsOutcome busy s (ok i, s')
  success busy i s s' q c o = record {
    counted = c;
    was_unused = λ j e.
        subst (λ k. (k < nentry) × (is_unused (s.filemap k).status ≡ true)) (ground arith)
          (alloc_index-ok no_fd i s q);
    lowest = λ j k e h.
        find_unused-lowest nentry 0 i k s (alloc_index-no_fd i s q) (omega arith) (ground arith);
    now_open = λ j e. subst (λ k. is_opened (s'.filemap k).status ≡ true) (ground arith) o;
  }

  open_node-IsOutcome :
      (busy : ℕ → ℕ) (i : ℕ) (path : List ℕ) (flags : ℕ) (mode : Bool × Bool) (s s0 : Files W)
      → alloc_index no_fd s0 ≡ ok i
      → IsClaimed busy i s.filemap
      → (r : Result ℕ × Files W) × (open_node v i path flags mode s ≡ some r) × IsOutcome busy s0 r
  unfolding open_node
  open_node-IsOutcome busy i path flags mode s s0 q c =
      let w = (open_path path flags s.world).1 in
      elim (Result-cases (open_path path flags s.world).0) [
        | inl (e, no_node) ↦
            let (s', run, d) = filemap_free-IsCounted busy i (record s { world = w }) c in
            ((err e, s'), rw (no_node, open_node) (rw run), failure busy e s0 s' d)
        | inr (n, got) ↦
            let w' = (start_offset v flags n w).1 in
            elim (Result-cases (start_offset v flags n w).0) [
              | inl (e, no_size) ↦
                  let (s', run, d) =
                    filemap_free-IsCounted busy i (record s { world = close n w' }) c in
                  ((err e, s'), rw (got, open_node) (rw (no_size, run)), failure busy e s0 s' d)
              | inr (at, size) ↦
                  let (s', run, d, o) =
                    finish_open-IsCounted busy i n at mode (record s { world = w' }) c in
                  ((ok i, s'), rw (got, open_node) (rw (size, run)), success busy i s0 s' q d o)
            ]
      ]

  -- With exact counts `file_open` passes its assertions and returns. It leaves the counts exact, and
  -- a descriptor that it returns is the lowest unused one and is open now.
  pub file_open-IsOutcome :
      (busy : ℕ → ℕ) (path : List ℕ) (flags : ℕ) (s : Files W)
      → IsCounted busy s.filemap
      → (r : Result ℕ × Files W) × (file_open v path flags s ≡ some r) × IsOutcome busy s r
  unfolding file_open
  file_open-IsOutcome busy path flags s c = elim (Option-cases (access_mode v flags)) [
    | inl bad ↦ ((err e_inval, s), rw (bad, file_open), failure busy e_inval s s c)
    | inr (mode, good) ↦
        let (r, run, allocated) = filemap_alloc-IsAllocated busy no_fd s c in
        elim allocated [
          | refused e q p ↦ ((err e, s), rw (good, file_open) (rw (run, p)), failure busy e s s c)
          | granted i s' q p claimed same ↦
              let (o, run2, d) = open_node-IsOutcome busy i path flags mode s' s q claimed in
              (o, rw (good, file_open) (rw (run, p) run2), d)
        ]
  ]
