-- ===== src/File/Count.antt =====
-- The reference counts of open files. A file is counted once for being open and once for each call
-- that is at work on it.
use mips.Base.{
  ℕ, ◌+◌, ◌-◌, ◌<◌, ◌==◌, ◌≡◌, refl, true, false, some, ltb, one_if, if◌then◌else◌, ◌||◌, arith,
  Bool-cases, inl, inr, subst, ==_refl, ℕ-cases,
}
use mips.File.{
  Status, File, Files, Vfs, put, is_unused, is_init, is_opened, is_closed, is_null, nentry,
  filemap_init, filemap_acquire, filemap_release, filemap_close, drop_reference, close_node,
}

abbrev pub Map : Type 0
Map = ℕ → File

-- File `i` with `b` calls at work on it.
pub record IsHeld (b i : ℕ) (f : File) : Type 0 where
  pub number : f.fd ≡ i
  pub counted : f.open_count ≡ one_if (is_opened f.status) + b
  pub idle : (is_unused f.status || is_init f.status) ≡ true → b ≡ 0
  pub waiting : is_closed f.status ≡ true → 0 < b
  pub has_node : (is_opened f.status || is_closed f.status) ≡ true → is_null f.node ≡ false

-- `busy` gives for each file the calls that are at work on it.
abbrev pub IsCounted : (ℕ → ℕ) → Map → Type 0
IsCounted busy m = (i : ℕ) → i < nentry → IsHeld (busy i) i (m i)

-- The calls at work, with `b` on file `i`.
abbrev pub working : ℕ → ℕ → (ℕ → ℕ) → ℕ → ℕ
working i b busy j = if j == i then b else busy j

-- A change of file `i` alone.
pub IsCounted-change :
    (busy : ℕ → ℕ) (i b : ℕ) (m m' : Map)
    → IsCounted busy m
    → IsHeld b i (m' i)
    → ((j : ℕ) → (j == i) ≡ false → m' j ≡ m j)
    → IsCounted (working i b busy) m'
IsCounted-change busy i b m m' c h same j k = elim (Bool-cases (j == i)) [
  | inl e ↦ let p : i ≡ j = ground arith in rw e (subst (λ n. IsHeld b n (m' n)) p h)
  | inr e ↦ rw (e, same j e) (c j k)
]

working_self : (busy : ℕ → ℕ) (i j : ℕ) → working i (busy i) busy j ≡ busy j
working_self busy i j = elim (ℕ-cases j i) [ inl e ↦ rw (e, ==_refl i) | inr e ↦ ground arith ]

pub IsCounted-self :
    (busy : ℕ → ℕ) (i : ℕ) (m : Map) → IsCounted (working i (busy i) busy) m → IsCounted busy m
IsCounted-self busy i m c j k = subst (λ n. IsHeld n j (m j)) (working_self busy i j) (c j k)

-- A change of file `i` alone that leaves it as many references as before.
pub IsCounted-keep :
    (busy : ℕ → ℕ) (i : ℕ) (m m' : Map)
    → IsCounted busy m
    → IsHeld (busy i) i (m' i)
    → ((j : ℕ) → (j == i) ≡ false → m' j ≡ m j)
    → IsCounted busy m'
IsCounted-keep busy i m m' c h same =
    IsCounted-self busy i m' (IsCounted-change busy i (busy i) m m' c h same)

pub at_opened :
    (b i : ℕ) (f : File) → IsHeld b i f → is_opened f.status ≡ true → (n : ℕ) × (f.node ≡ some n)
at_opened b i f h o = ground (arith, h.has_node)

module _ {W : Type 0} where
  -- Whatever the memory of the table held, after `filemap_init` the counts are exact with no call
  -- at work.
  pub filemap_init-IsCounted : (s : Files W) → IsCounted (λ _. 0) (filemap_init s).filemap
  unfolding filemap_init
  filemap_init-IsCounted s i h = ground arith

  -- A call that finds the file open takes a reference.
  pub filemap_acquire-IsCounted :
      (busy : ℕ → ℕ) (i : ℕ) (s : Files W)
      → IsCounted busy s.filemap
      → i < nentry
      → is_opened (s.filemap i).status ≡ true
      → (s' : Files W) × (filemap_acquire i s ≡ some s')
        × IsCounted (working i (busy i + 1) busy) s'.filemap
  unfolding filemap_acquire
  filemap_acquire-IsCounted busy i s c k o =
      let f : File = record (s.filemap i) { open_count = (s.filemap i).open_count + 1 } in
      let h = c i k in
      (
        put i f s,
        rw o,
        IsCounted-change busy i (busy i + 1) s.filemap (put i f s).filemap c
            (rw (==_refl i) (ground arith)) (λ j e. rw e),
      )

module _ {W : Type 0} (v : Vfs W) where
  open v use {close}

  -- The file `f` gives up a reference; with the last one a closed file is freed.
  drop_reference-IsCounted :
      (busy : ℕ → ℕ) (i b : ℕ) (s : Files W) (m : Map)
      → IsCounted busy m
      → ((j : ℕ) → (j == i) ≡ false → s.filemap j ≡ m j)
      → (s.filemap i).fd ≡ i
      → (s.filemap i).open_count ≡ one_if (is_opened (s.filemap i).status) + b + 1
      → (is_opened (s.filemap i).status || is_closed (s.filemap i).status) ≡ true
      → (n : ℕ) → (s.filemap i).node ≡ some n
      → (s' : Files W) × (drop_reference v i s ≡ some s') × IsCounted (working i b busy) s'.filemap
  unfolding drop_reference close_node
  drop_reference-IsCounted busy i b s m c same e k o n a =
      let f = s.filemap i in
      let g : File = record f { open_count = f.open_count - 1 } in
      let s1 : Files W = put i g s in
      let r = ==_refl i in
      elim (Bool-cases (f.open_count - 1 == 0)) [
        | inr more ↦ (
          s1,
          rw more,
          IsCounted-change busy i b m s1.filemap c (rw r (ground (arith, more)))
              (λ j d. rw (d, same j d)),
        )
        | inl last ↦
            let s2 : Files W = record (put i (record g { status = Status.unused }) s1) {
              world = close n s1.world;
            } in
            let cl : is_closed f.status ≡ true = ground (arith, last) in
            (
              s2,
              rw last (rw r (ground (arith, last, cl, a))),
              IsCounted-change busy i b m s2.filemap c (rw r (ground (arith, last)))
                  (λ j d. rw (d, same j d)),
            )
      ]

  -- The status and node of a file on which a call is at work.
  at_work :
      (b i : ℕ) (f : File)
      → IsHeld b i f
      → 0 < b
      → ((is_opened f.status || is_closed f.status) ≡ true) × ((n : ℕ) × (f.node ≡ some n))
  at_work b i f h w = ground (arith, h.idle, h.has_node)

  -- With exact counts and a call at work on the file, open or closed, `filemap_release` passes its
  -- assertions and returns; the counts are exact for one call less.
  pub filemap_release-IsCounted :
      (busy : ℕ → ℕ) (i : ℕ) (s : Files W)
      → IsCounted busy s.filemap
      → i < nentry
      → 0 < busy i
      → (s' : Files W) × (filemap_release v i s ≡ some s')
        × IsCounted (working i (busy i - 1) busy) s'.filemap
  unfolding filemap_release
  filemap_release-IsCounted busy i s c k w =
      let h = c i k in
      let (o, (n, a)) = at_work (busy i) i (s.filemap i) h w in
      let test : ltb 0 (s.filemap i).open_count ≡ true = ground (arith, h.counted) in
      rw (o, test)
        (drop_reference-IsCounted busy i (busy i - 1) s s.filemap c (λ j e. refl) h.number
          (omega (arith, h.counted)) o n a)

  -- Closing an open file gives up the table's own reference; the calls at work keep theirs.
  pub filemap_close-IsCounted :
      (busy : ℕ → ℕ) (i : ℕ) (s : Files W)
      → IsCounted busy s.filemap
      → i < nentry
      → is_opened (s.filemap i).status ≡ true
      → (s' : Files W) × (filemap_close v i s ≡ some s') × IsCounted busy s'.filemap
  unfolding filemap_close
  filemap_close-IsCounted busy i s c k o =
      let h = c i k in
      let f : File = record (s.filemap i) { status = Status.closed } in
      let (n, a) = (at_opened (busy i) i (s.filemap i) h o) in
      let test : ltb 0 (s.filemap i).open_count ≡ true = ground (arith, h.counted) in
      let r = ==_refl i in
      let (s', run, d) =
        drop_reference-IsCounted busy i (busy i) (put i f s) s.filemap c (λ j e. rw e)
          (rw r h.number) (rw r (ground (arith, h.counted))) (rw r refl) n (rw r a) in
      (s', rw (o, test) run, IsCounted-self busy i s'.filemap d)
