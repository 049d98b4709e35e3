-- ===== src/Print/Format/Sequence.antt =====
-- How far an escape sequence of `vprintfmt` reaches.
use mips.Base.{
  ℕ, ◌≡◌, ◌==◌, refl, Bool, true, false, Option, none, some, List, [], ◌∷◌, ◌++◌, leb, ◌&&◌, ◌||◌,
  not, arith, if◌then◌else◌, Bool-cases, inl, inr, sym, ◌∙◌, ap, ◌*◌, ◌+◌, ◌-◌, Option-cases,
}
use mathlib.Core.List.{append_assoc}
use mips.Base.Int.{pos}
use mips.Print.Format.{
  Arg, Conv, Step, again, prints, unrecognized, undefined, print_step, convert, switch, follow,
  escape, escape_char, va_int, process_precision,
}

-- One of - 0 1 to 9 * . # l.
abbrev pub is_flag : ℕ → Bool
is_flag ch =
    ch == 45
    || ch == 48
    || (leb 49 ch && leb ch 57)
    || ch == 42
    || ch == 46
    || ch == 35
    || ch == 108

-- One of c e s d p x %.
abbrev pub is_conversion : ℕ → Bool
is_conversion ch =
    ch == 99 || ch == 101 || ch == 115 || ch == 100 || ch == 112 || ch == 120 || ch == 37

abbrev pub all_flags : List ℕ → Bool
all_flags [] = true
all_flags (ch ∷ l) = is_flag ch && all_flags l

-- The format ends, or its first character is neither a flag nor a conversion.
abbrev pub is_unknown : List ℕ → Bool
is_unknown [] = true
is_unknown (ch ∷ l) = not (is_flag ch) && not (is_conversion ch)

-- What a sequence at `start` reads and prints: flags and a conversion, or nothing, and then its `%` is
-- printed because no conversion follows the flags.
pub data IsSequence (start read text : List ℕ) : Type 0 where
  known :
      (flags : List ℕ) (ch : ℕ)
      → all_flags flags ≡ true
      → is_conversion ch ≡ true
      → read ≡ flags ++ (ch ∷ [])
      → IsSequence start read text
  unknown :
      (flags rest : List ℕ)
      → start ≡ flags ++ rest
      → all_flags flags ≡ true
      → is_unknown rest ≡ true
      → read ≡ []
      → text ≡ 37 ∷ []
      → IsSequence start read text

-- What a character is, by its step.
abbrev IsStepOf : ℕ → Step → Type 0
IsStepOf ch (again c a) = is_flag ch ≡ true
IsStepOf ch (prints out a) = is_conversion ch ≡ true
IsStepOf ch unrecognized = is_unknown (ch ∷ []) ≡ true
IsStepOf ch undefined = Unit

by_test :
    (ch : ℕ) (b : Bool) (s t : Step)
    → (b ≡ true → IsStepOf ch s)
    → (b ≡ false → IsStepOf ch t)
    → IsStepOf ch (if b then s else t)
by_test ch true s t h k = h refl
by_test ch false s t h k = k refl

print_step-IsStepOf :
    (ch : ℕ) (o : Option (List ℕ × List Arg)) → is_conversion ch ≡ true → IsStepOf ch (print_step o)
print_step-IsStepOf ch none h = tt
print_step-IsStepOf ch (some (out, a)) h = h

convert-IsStepOf :
    (c : Conv) (ch : ℕ) (args : List Arg) → is_flag ch ≡ false → IsStepOf ch (convert c ch args)
unfolding convert
convert-IsStepOf c ch args f =
    by_test ch (ch == 99) _ _ (λ e. print_step-IsStepOf ch _ (ground (arith, e)))
      (λ n1.
        by_test ch (ch == 101) _ _ (λ e. print_step-IsStepOf ch _ (ground (arith, e)))
          (λ n2.
            by_test ch (ch == 115) _ _ (λ e. print_step-IsStepOf ch _ (ground (arith, e)))
              (λ n3.
                by_test ch (ch == 100) _ _ (λ e. print_step-IsStepOf ch _ (ground (arith, e)))
                  (λ n4.
                    by_test ch (ch == 112) _ _ (λ e. print_step-IsStepOf ch _ (ground (arith, e)))
                      (λ n5.
                        by_test ch (ch == 120) _ _
                          (λ e. print_step-IsStepOf ch _ (ground (arith, e)))
                          (λ n6.
                            by_test ch (ch == 37) _ _ (λ e. ground (arith, e))
                              (λ n7. rw (f, n1, n2, n3, n4, n5, n6, n7) refl)))))))

switch-IsStepOf : (c : Conv) (ch : ℕ) (args : List Arg) → IsStepOf ch (switch c ch args)
unfolding switch
switch-IsStepOf c ch args =
    by_test ch (ch == 45) _ _ (λ e. ground (arith, e))
      (λ n1.
        by_test ch (ch == 48) _ _ (λ e. ground (arith, e))
          (λ n2.
            by_test ch (leb 49 ch && leb ch 57) _ _ (λ e. ground (arith, e))
              (λ n3.
                by_test ch (ch == 42) _ _
                  (λ e. elim (Option-cases (va_int args)) [
                    | inl stop ↦ rw stop tt
                    | inr (r, run) ↦ rw run (ground (arith, e))
                  ])
                  (λ n4.
                    by_test ch (ch == 46) _ _ (λ e. ground (arith, e))
                      (λ n5.
                        by_test ch (ch == 35) _ _ (λ e. ground (arith, e))
                          (λ n6.
                            by_test ch (ch == 108) _ _ (λ e. ground (arith, e))
                              (λ n7.
                                convert-IsStepOf c ch args
                                  (rw (n1, n2, n3, n4, n5, n6, n7) refl))))))))

number-IsStepOf :
    (c : Conv) (ch : ℕ) (args : List Arg) (reading : Option ℕ)
    → IsStepOf ch (elim reading [
      | none ↦ switch c ch args
      | some n ↦
          if leb 48 ch && leb ch 57
          then again (record c { reading = some (n * 10 + ch - 48) }) args
          else switch (process_precision (record c { precision = pos n; reading = none })) ch args
    ])
number-IsStepOf c ch args none = switch-IsStepOf c ch args
number-IsStepOf c ch args (some n) =
    by_test ch (leb 48 ch && leb ch 57) _ _ (λ e. ground (arith, e))
      (λ e. switch-IsStepOf _ ch args)

escape_char-IsStepOf : (c : Conv) (ch : ℕ) (args : List Arg) → IsStepOf ch (escape_char c ch args)
unfolding escape_char
escape_char-IsStepOf c ch args = number-IsStepOf c ch args c.reading

-- The format goes on at a tail of `start`, behind what the sequence reads.
abbrev pub GoesOn : (start : List ℕ) → Option (List ℕ × List ℕ × List Arg) → Type 0
GoesOn start none = Unit
GoesOn start (some (text, behind, args)) =
    (read : List ℕ) × (start ≡ read ++ behind) × IsSequence start read text

follow-GoesOn :
    (start flags fmt : List ℕ) (ch : ℕ) (args : List Arg)
    → (go : Conv → List Arg → Option (List ℕ × List ℕ × List Arg)) → start ≡ flags ++ (ch ∷ fmt)
    → all_flags flags ≡ true
    → (is_flag ch ≡ true → (c : Conv) (a : List Arg) → GoesOn start (go c a))
    → (s : Step) → IsStepOf ch s
    → GoesOn start (follow start fmt args go s)
follow-GoesOn start flags fmt ch args go h l k (again c a) e = k e c a
follow-GoesOn start flags fmt ch args go h l k (prints out a) e =
    (flags ++ (ch ∷ []), h ∙ sym (append_assoc flags (ch ∷ []) fmt), known flags ch l e refl)
follow-GoesOn start flags fmt ch args go h l k unrecognized e =
    ([], refl, unknown flags (ch ∷ fmt) h l e refl refl)
follow-GoesOn start flags fmt ch args go h l k undefined e = tt

all_flags-append :
    (flags : List ℕ) (ch : ℕ)
    → all_flags flags ≡ true
    → is_flag ch ≡ true
    → all_flags (flags ++ (ch ∷ [])) ≡ true
all_flags-append [] ch l e = rw e refl
all_flags-append (x ∷ flags) ch l e = elim (Bool-cases (is_flag x)) [
  | inl y ↦ rw y (all_flags-append flags ch (sym (ap (λ b. b && all_flags flags) y) ∙ l) e)
  | inr n ↦ absurd (ground (arith, sym (ap (λ b. b && all_flags flags) n) ∙ l))
]

pub escape-GoesOn :
    (start : List ℕ) (c : Conv) (flags fmt : List ℕ) (args : List Arg)
    → start ≡ flags ++ fmt
    → all_flags flags ≡ true
    → GoesOn start (escape start c fmt args)
unfolding escape
escape-GoesOn start c flags [] args h l = ([], refl, unknown flags [] h l refl refl refl)
escape-GoesOn start c flags (ch ∷ fmt) args h l =
    follow-GoesOn start flags fmt ch args (λ c1 a. escape start c1 fmt a) h l
      (λ e c1 a.
        escape-GoesOn start c1 (flags ++ (ch ∷ [])) fmt a
          (h ∙ sym (append_assoc flags (ch ∷ []) fmt)) (all_flags-append flags ch l e))
      (escape_char c ch args) (escape_char-IsStepOf c ch args)
