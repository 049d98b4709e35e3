-- ===== src/Stdin/Fifo.antt =====
-- The characters that are typed and not yet read, as a list.
use mips.Base.{
  ℕ, zero, suc, ◌+◌, ◌-◌, ◌%◌, ◌<◌, ◌≤◌, ◌==◌, ◌≡◌, refl, true, false, List, [], ◌∷◌, ◌++◌, ltb,
  length, if◌then◌else◌, arith, Bool-cases, inl, inr, ap, ◌∙◌, ==_refl,
}
use mips.Stdin.{Stdin, stdin_bufsize, put_char, read_ready}

-- The `n` characters from the offset `r` on.
unfoldable pub window : (n r : ℕ) → (ℕ → ℕ) → List ℕ
window zero r b = []
window (suc n) r b = b (r % stdin_bufsize) ∷ window n (r + 1) b

abbrev pub contents : Stdin → List ℕ
contents s = window (s.p_wpos - s.p_rpos) s.p_rpos s.stdin_buffer

-- The offsets are in order, and no further apart than the buffer is long.
pub record IsBuffer (s : Stdin) : Type 0 where
  pub ordered : s.p_rpos ≤ s.p_wpos
  pub bounded : s.p_wpos ≤ s.p_rpos + stdin_bufsize

abbrev written : (w c : ℕ) → (ℕ → ℕ) → ℕ → ℕ
written w c b i = if i == w % stdin_bufsize then c else b i

-- A write just behind the window does not reach it.
window-written :
    (n r w c : ℕ) (b : ℕ → ℕ)
    → r + n ≤ w
    → w < r + stdin_bufsize
    → window n r (written w c b) ≡ window n r b
unfolding window
window-written zero r w c b h k = refl
window-written (suc n) r w c b h k =
    ground (arith, window-written n (r + 1) w c b (omega arith) (omega arith))

window-snoc :
    (n r : ℕ) (b : ℕ → ℕ) → window (suc n) r b ≡ window n r b ++ (b ((r + n) % stdin_bufsize) ∷ [])
unfolding window
window-snoc zero r b = ground arith
window-snoc (suc n) r b =
    ap (λ l. b (r % stdin_bufsize) ∷ l) (window-snoc n (r + 1) b)
    ∙ ap (λ k. b (r % stdin_bufsize) ∷ (window n (r + 1) b ++ (b (k % stdin_bufsize) ∷ [])))
        (omega arith)

-- While there is room, a character goes behind those that wait.
pub contents-put_char :
    (c : ℕ) (s : Stdin)
    → IsBuffer s
    → s.p_wpos < s.p_rpos + stdin_bufsize
    → (contents (put_char c s) ≡ contents s ++ (c ∷ [])) × IsBuffer (put_char c s)
unfolding put_char
contents-put_char c s i h =
    let n = s.p_wpos - s.p_rpos in
    let room : ltb n stdin_bufsize ≡ true = ground (arith, i.ordered) in
    let more : s.p_wpos + 1 - s.p_rpos ≡ suc n = omega (arith, i.ordered) in
    let end : s.p_rpos + n ≡ s.p_wpos = omega (arith, i.ordered) in
    let b = written s.p_wpos c s.stdin_buffer in
    let last : b ((s.p_rpos + n) % stdin_bufsize) ≡ c =
      rw end (rw (==_refl (s.p_wpos % stdin_bufsize)) refl) in
    (
      rw room (
          rw more (
            window-snoc n s.p_rpos b
            ∙ rw (last, window-written n s.p_rpos s.p_wpos c s.stdin_buffer (omega (arith, end)) h)
                refl)),
      record { ordered = ground (arith, i.ordered); bounded = ground (arith, i.bounded) },
    )

-- Into a full buffer, the character takes the place of the one that has waited longest.
pub contents-put_char_full :
    (c d : ℕ) (l : List ℕ) (s : Stdin)
    → s.p_wpos ≡ s.p_rpos + stdin_bufsize
    → contents s ≡ d ∷ l
    → contents (put_char c s) ≡ c ∷ l
unfolding put_char window
contents-put_char_full c d l s h e =
    let k = s.p_wpos - s.p_rpos - 1 in
    let n : s.p_wpos - s.p_rpos ≡ suc k = omega arith in
    let full : ltb (s.p_wpos - s.p_rpos) stdin_bufsize ≡ false = ground arith in
    let tail : window k (s.p_rpos + 1) s.stdin_buffer ≡ l = ground (arith, rw n at e) in
    let same =
      window-written k (s.p_rpos + 1) s.p_wpos c s.stdin_buffer (omega arith) (omega arith) in
    let here : (s.p_rpos % stdin_bufsize == s.p_wpos % stdin_bufsize) ≡ true = ground arith in
    rw full (rw n (rw here (rw (same, tail) refl)))

-- A read takes characters from the front, as many as there are and as are asked for.
pub read_ready-contents :
    (left : ℕ) (s : Stdin)
    → IsBuffer s
    → let r = read_ready left s in
      (contents s ≡ r.0 ++ contents r.2)
      × (length r.0 + r.1 ≡ left)
      × (0 < r.1 → contents r.2 ≡ [])
      × IsBuffer r.2
unfolding read_ready window
read_ready-contents zero s i = (refl, refl, λ h. absurd (omega (arith, h)), i)
read_ready-contents (suc left) s i = elim (Bool-cases (ltb s.p_rpos s.p_wpos)) [
  | inr e ↦
      let none_left : s.p_wpos - s.p_rpos ≡ 0 = ground (arith, i.ordered) in
      rw (e, read_ready) (refl, omega arith, λ h. rw none_left refl, i)
  | inl e ↦
      let s1 : Stdin = record s { p_rpos = s.p_rpos + 1 } in
      let n : s.p_wpos - s.p_rpos ≡ suc (s.p_wpos - (s.p_rpos + 1)) = ground arith in
      let i1 : IsBuffer s1 = record {
        ordered = ground arith;
        bounded = ground (arith, i.bounded);
      } in
      let (a, b, c, d) = read_ready-contents left s1 i1 in
      rw (e, read_ready)
        (rw n (ap (λ l. s.stdin_buffer (s.p_rpos % stdin_bufsize) ∷ l) a), omega (arith, b), c, d)
]

-- A read leaves the wait queues alone.
pub read_ready-sync : (left : ℕ) (s : Stdin) → (read_ready left s).2.sync ≡ s.sync
unfolding read_ready
read_ready-sync zero s = refl
read_ready-sync (suc left) s = elim (Bool-cases (ltb s.p_rpos s.p_wpos)) [
  | inr e ↦ rw (e, read_ready) refl
  | inl e ↦ rw (e, read_ready) (read_ready-sync left (record s { p_rpos = s.p_rpos + 1 }))
]
