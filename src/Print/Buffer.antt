-- ===== src/Print/Buffer.antt =====
-- `vsnprintf` of kern/libs/printfmt.c: the buffer is a list of cells, and its pointers are indices.
use mips.Base.{
  ℕ, ◌+◌, ◌-◌, ◌<◌, ◌≤◌, ◌≡◌, ◌==◌, refl, true, false, Option, none, some, List, [], ◌∷◌, ◌++◌, set,
  take, map, ◌%◌, ◌^◌, length, ltb, zero, suc, ap, ◌∙◌, length-append, if◌then◌else◌, ◌>>=◌, arith,
}
use mips.Base.Results.{Result, ok, err}
use mips.Print.Format.{Arg, vprintfmt}
use mathlib.Core.List.{append_assoc}

-- `buf` is the next cell to fill and `ebuf` the last one.
pub record Sprintbuf : Type 0 where
  pub cells : List ℕ
  pub buf : ℕ
  pub ebuf : ℕ
  pub cnt : ℕ

-- The conversion of an `int` to a `char`, of which a cell keeps the low 8 bits.
abbrev pub to_char : ℕ → ℕ
to_char ch = ch % 2 ^ 8

pub sprintputch : ℕ → Sprintbuf → Sprintbuf
sprintputch ch b =
    if ltb b.buf b.ebuf
    then record b { cells = set b.cells b.buf (to_char ch); buf = b.buf + 1; cnt = b.cnt + 1 }
    else record b { cnt = b.cnt + 1 }

-- `sprintputch` at each character that is printed.
pub put_all : List ℕ → Sprintbuf → Sprintbuf
unfolding sprintputch
put_all [] b = b
put_all (ch ∷ out) b = put_all out (sprintputch ch b)

-- `vsnprintf`: the buffer and the count; `none` is the null pointer. A size of 0 puts the last cell
-- before the first.
pub vsnprintf : Option (List ℕ) → (size : ℕ) → List ℕ → List Arg → Option (Result (List ℕ × ℕ))
unfolding put_all
vsnprintf none size fmt ap = some (err 3)
vsnprintf (some str) size fmt ap = if size == 0 then some (err 3) else (do
  out ← vprintfmt fmt ap
  let b = put_all out (record { cells = str; buf = 0; ebuf = size - 1; cnt = 0 })
  some (ok (set b.cells b.buf 0, b.cnt)))

-- A list over the front of another one, as far as that goes.
pub overlay : List ℕ → List ℕ → List ℕ
overlay [] str = str
overlay (x ∷ l) [] = []
overlay (x ∷ l) (y ∷ str) = x ∷ overlay l str

set-append :
    (pre rest : List ℕ) (y v : ℕ) → set (pre ++ (y ∷ rest)) (length pre) v ≡ pre ++ (v ∷ rest)
set-append [] rest y v = refl
set-append (x ∷ pre) rest y v = ap (λ l. x ∷ l) (set-append pre rest y v)

-- The state behind the characters `pre`, with `rest` behind them.
abbrev filled : (pre rest : List ℕ) (e c : ℕ) → Sprintbuf
filled pre rest e c = record { cells = pre ++ rest; buf = length pre; ebuf = e; cnt = c }

sprintputch-room :
    (ch y : ℕ) (pre rest : List ℕ) (e c : ℕ)
    → length pre < e
    → sprintputch ch (filled pre (y ∷ rest) e c) ≡ filled (pre ++ (to_char ch ∷ [])) rest e (c + 1)
unfolding sprintputch
sprintputch-room ch y pre rest e c h =
    let there : ltb (length pre) e ≡ true = ground arith in
    rw there (
      rw (set-append pre rest y (to_char ch)) (
        rw (append_assoc pre (to_char ch ∷ []) rest)
          (rw (length-append pre (to_char ch ∷ [])) refl)))

sprintputch-full :
    (ch : ℕ) (b : Sprintbuf) → b.ebuf ≤ b.buf → sprintputch ch b ≡ record b { cnt = b.cnt + 1 }
unfolding sprintputch
sprintputch-full ch b h = let there : ltb b.buf b.ebuf ≡ false = ground arith in rw there refl

sprintputch-cnt : (ch : ℕ) (b : Sprintbuf) → (sprintputch ch b).cnt ≡ b.cnt + 1
unfolding sprintputch
sprintputch-cnt ch b = ground arith

put_all-cnt : (out : List ℕ) (b : Sprintbuf) → (put_all out b).cnt ≡ b.cnt + length out
unfolding put_all
put_all-cnt [] b = omega arith
put_all-cnt (ch ∷ out) b = omega (arith, put_all-cnt out (sprintputch ch b), sprintputch-cnt ch b)

put_all-cells :
    (out pre rest : List ℕ) (room e c : ℕ)
    → e ≡ length pre + room
    → room < length rest
    → let b = put_all out (filled pre rest e c) in
      set b.cells b.buf 0 ≡ pre ++ overlay (map to_char (take room out) ++ (0 ∷ [])) rest
unfolding put_all overlay
put_all-cells [] pre [] room e c h r = absurd (omega arith)
put_all-cells [] pre (y ∷ rest) zero e c h r = set-append pre rest y 0
put_all-cells [] pre (y ∷ rest) (suc room) e c h r = set-append pre rest y 0
put_all-cells (ch ∷ out) pre rest zero e c h r =
    ap (λ b. set (put_all out b).cells (put_all out b).buf 0)
      (sprintputch-full ch (filled pre rest e c) (omega arith))
    ∙ put_all-cells out pre rest zero e (c + 1) h r
put_all-cells (ch ∷ out) pre [] (suc room) e c h r = absurd (omega arith)
put_all-cells (ch ∷ out) pre (y ∷ rest) (suc room) e c h r =
    ap (λ b. set (put_all out b).cells (put_all out b).buf 0)
      (sprintputch-room ch y pre rest e c (omega arith))
    ∙ put_all-cells out (pre ++ (to_char ch ∷ [])) rest room e (c + 1)
        (omega (arith, length-append pre (to_char ch ∷ []))) (omega arith)
    ∙ append_assoc pre (to_char ch ∷ []) (overlay (map to_char (take room out) ++ (0 ∷ [])) rest)

-- With a buffer of `size` cells at least, `vsnprintf` leaves in it the low 8 bits of each character that
-- is printed, up to the first `size - 1` ones, with a zero behind them, changes no cell further on, and counts all that is
-- printed.
pub vsnprintf-cells :
    (str fmt : List ℕ) (size : ℕ) (args : List Arg) (out : List ℕ)
    → 0 < size
    → size ≤ length str
    → vprintfmt fmt args ≡ some out
    → vsnprintf (some str) size fmt args
      ≡ some (ok (overlay (map to_char (take (size - 1) out) ++ (0 ∷ [])) str, length out))
unfolding vsnprintf
vsnprintf-cells str fmt size args out p h run =
    let there : (size == 0) ≡ false = ground arith in
    rw (there, run)
      (rw (put_all-cells out [] str (size - 1) (size - 1) 0 (omega arith) (omega arith)) (
        ap (λ n. some (ok (overlay (map to_char (take (size - 1) out) ++ (0 ∷ [])) str, n)))
          (omega (arith, put_all-cnt out (filled [] str (size - 1) 0)))))
