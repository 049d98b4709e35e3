-- ===== src/Print/Format/Loop.antt =====
-- The loop of `vprintfmt`: what a format prints, and that the loop ends.
use mips.Base.{
  ℕ, zero, suc, ◌<◌, ◌≤◌, ◌≡◌, ◌==◌, refl, true, false, Option, none, some, List, [], ◌∷◌, ◌++◌,
  length, ◌>>=◌, arith, Bool-cases, inl, inr, ◌⊎◌, Option-cases, sym, subst, length-append,
}
use mips.Print.Format.Sequence.{GoesOn, IsSequence, escape-GoesOn}
use mips.Print.Format.{Arg, plain, escape, format, vprintfmt}

-- The rest of the format behind an escape sequence, by a printer of it.
abbrev go_on :
    (List ℕ → List Arg → Option (List ℕ)) → Option (List ℕ × List ℕ × List Arg) → Option (List ℕ)
go_on f r = do (out, fmt1, ap1) ← r; rest ← f fmt1 ap1; some (out ++ rest)

format-literal :
    (n ch : ℕ) (fmt : List ℕ) (args : List Arg)
    → (ch == 37) ≡ false
    → format (suc n) (ch ∷ fmt) args ≡ (do rest ← format n fmt args; some (ch ∷ rest))
unfolding format
format-literal n ch fmt args e = rw (format, e) refl

format-escape :
    (n ch : ℕ) (fmt : List ℕ) (args : List Arg)
    → (ch == 37) ≡ true
    → format (suc n) (ch ∷ fmt) args ≡ go_on (format n) (escape fmt plain fmt args)
unfolding format
format-escape n ch fmt args e = rw (format, e) refl

-- What a format prints: itself, but for its escape sequences, each of which stands for a text. A
-- sequence behind its `%` is the part `read` of the format, and what follows begins behind it.
pub data IsPrinted : (fmt : List ℕ) → List Arg → (out : List ℕ) → Type 0 where
  at_end : {args : List Arg} → IsPrinted [] args []
  literal :
      {ch : ℕ} {fmt : List ℕ} {args : List Arg} {out : List ℕ}
      → (ch == 37) ≡ false
      → IsPrinted fmt args out
      → IsPrinted (ch ∷ fmt) args (ch ∷ out)
  sequence :
      {ch : ℕ} {fmt behind text out : List ℕ} {args args1 : List Arg} (read : List ℕ)
      → (ch == 37) ≡ true
      → escape fmt plain fmt args ≡ some (text, behind, args1)
      → fmt ≡ read ++ behind
      → IsSequence fmt read text
      → IsPrinted behind args1 out
      → IsPrinted (ch ∷ fmt) args (text ++ out)

-- A format that comes to an escape sequence with no meaning.
pub data IsStuck : (fmt : List ℕ) → List Arg → Type 0 where
  undefined_here :
      {ch : ℕ} {fmt : List ℕ} {args : List Arg}
      → (ch == 37) ≡ true
      → escape fmt plain fmt args ≡ none
      → IsStuck (ch ∷ fmt) args
  past_literal :
      {ch : ℕ} {fmt : List ℕ} {args : List Arg}
      → (ch == 37) ≡ false
      → IsStuck fmt args
      → IsStuck (ch ∷ fmt) args
  past_sequence :
      {ch : ℕ} {fmt behind text : List ℕ} {args args1 : List Arg} (read : List ℕ)
      → (ch == 37) ≡ true
      → escape fmt plain fmt args ≡ some (text, behind, args1)
      → fmt ≡ read ++ behind
      → IsSequence fmt read text
      → IsStuck behind args1
      → IsStuck (ch ∷ fmt) args

-- The two ends of a run, `r`.
abbrev pub IsRunOf : List ℕ → List Arg → Option (List ℕ) → Type 0
IsRunOf fmt args none = IsStuck fmt args
IsRunOf fmt args (some out) = IsPrinted fmt args out

past_literal-IsRunOf :
    (ch : ℕ) (fmt : List ℕ) (args : List Arg) (r : Option (List ℕ))
    → (ch == 37) ≡ false
    → IsRunOf fmt args r
    → IsRunOf (ch ∷ fmt) args (do rest ← r; some (ch ∷ rest))
past_literal-IsRunOf ch fmt args none e h = past_literal e h
past_literal-IsRunOf ch fmt args (some out) e h = literal e h

past_sequence-IsRunOf :
    (ch : ℕ) (fmt behind text read : List ℕ) (args args1 : List Arg) (r : Option (List ℕ))
    → (ch == 37) ≡ true
    → escape fmt plain fmt args ≡ some (text, behind, args1)
    → fmt ≡ read ++ behind
    → IsSequence fmt read text
    → IsRunOf behind args1 r
    → IsRunOf (ch ∷ fmt) args (do rest ← r; some (text ++ rest))
past_sequence-IsRunOf ch fmt behind text read args args1 none e run tail q h =
    past_sequence read e run tail q h
past_sequence-IsRunOf ch fmt behind text read args args1 (some out) e run tail q h =
    sequence read e run tail q h

shorter : (read behind fmt : List ℕ) → fmt ≡ read ++ behind → length behind ≤ length fmt
shorter read behind fmt e = rw e (omega (arith, length-append read behind))

format-IsRunOf :
    (n : ℕ) (fmt : List ℕ) (args : List Arg) → length fmt < n → IsRunOf fmt args (format n fmt args)
unfolding format
format-IsRunOf zero fmt args h = absurd (omega arith)
format-IsRunOf (suc n) [] args h = at_end
format-IsRunOf (suc n) (ch ∷ fmt) args h = elim (Bool-cases (ch == 37)) [
  | inr e ↦ subst (IsRunOf (ch ∷ fmt) args) (sym (format-literal n ch fmt args e)) (
      past_literal-IsRunOf ch fmt args (format n fmt args) e
        (format-IsRunOf n fmt args (omega arith)))
  | inl e ↦
      subst (IsRunOf (ch ∷ fmt) args) (sym (format-escape n ch fmt args e))
        (elim (Option-cases (escape fmt plain fmt args)) [
          | inl stop ↦
              subst (λ r. IsRunOf (ch ∷ fmt) args (go_on (format n) r)) (sym stop)
                (undefined_here e stop)
          | inr ((text, behind, args1), run) ↦
              let (read, tail, q) =
                subst (GoesOn fmt) run (escape-GoesOn fmt plain [] fmt args refl refl) in
              let less = shorter read behind fmt tail in
              subst (λ r. IsRunOf (ch ∷ fmt) args (go_on (format n) r)) (sym run)
                (past_sequence-IsRunOf ch fmt behind text read args args1 (format n behind args1) e
                  run tail q (format-IsRunOf n behind args1 (omega (arith, less))))
        ])
]

-- `vprintfmt` goes through the whole format and ends: it prints each character that is no `%`, and for
-- each escape sequence its text. A sequence is the flags behind a `%` and a conversion, and the format
-- goes on behind it; when no conversion follows the flags, only the `%` is printed, and the format
-- goes on behind that. Or else it comes, after such a part of the format, to a sequence that has no
-- meaning with the arguments that are left.
pub vprintfmt-IsPrinted :
    (fmt : List ℕ) (args : List Arg)
    → ((out : List ℕ) × (vprintfmt fmt args ≡ some out) × IsPrinted fmt args out)
      ⊎ ((vprintfmt fmt args ≡ none) × IsStuck fmt args)
unfolding vprintfmt
vprintfmt-IsPrinted fmt args =
    let done = format-IsRunOf (suc (length fmt)) fmt args (omega arith) in
    elim (Option-cases (vprintfmt fmt args)) [
      | inl stop ↦ inr (stop, subst (IsRunOf fmt args) stop done)
      | inr (out, run) ↦ inl (out, run, subst (IsRunOf fmt args) run done)
    ]
