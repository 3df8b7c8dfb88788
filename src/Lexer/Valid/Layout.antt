-- ===== src/Lexer/Valid/Layout.antt =====
-- The invariant through the first half of `pylt_lex_next`, which measures the indentation, and what
-- a call may do to the indent stack.
use python_lite.Base.{
  ◌⊎◌, inl, inr, sym, ◌<◌, ◌-◌, ltb, if_cases, ℕ, ◌≡◌, refl, List, [], ◌∷◌, arith, ◌==◌, some, none,
  Option,
}
use mathlib.Core.Path.{subst}
use python_lite.Lexer.Token.{tk_indent, tk_dedent}
use python_lite.Lexer.State.{LexState}
use python_lite.Lexer.Scan.{token}
use python_lite.Lexer.Indent.{Layout, layout_token, level, no_stack, compare_indent}
use python_lite.Lexer.Next.{Outcome, returns, hangs, crashes, Scan, again, result}
use python_lite.Lexer.Valid.{IsStack, IsValid}

-- How a call may change the indent stack: not at all, by a push with the token INDENT, or by a
-- pop with the token DEDENT.
abbrev pub Moves : List ℕ → List ℕ → ℕ → Type 0
Moves before after tok =
    (after ≡ before)
    ⊎ ((v : ℕ) × (after ≡ v ∷ before) × (tok ≡ tk_indent))
    ⊎ ((v : ℕ) × (before ≡ v ∷ after) × (tok ≡ tk_dedent))

abbrev pub After : List ℕ → LexState → Type 0
After st ls = IsValid ls.indent ls × IsStack ls.indent × Moves st ls.indent ls.token_val

-- The state after a call, whatever code it returns; and the call does not crash.
abbrev pub IsSafe : List ℕ → Outcome → Type 0
IsSafe st (returns code ls) = After st ls
IsSafe st hangs = Unit
IsSafe st crashes = ⊥

abbrev pub StepIsValid : List ℕ → Option (ℕ × LexState) → Type 0
StepIsValid st none = Unit
StepIsValid st (some (cur, ls)) = IsValid st ls

abbrev pub MeasuredIsValid : List ℕ → ℕ × LexState → Type 0
MeasuredIsValid st r = IsValid st r.1

abbrev pub LayoutIsValid : List ℕ → Layout → Type 0
LayoutIsValid st (layout_token ls) = After st ls
LayoutIsValid st (level ls) = IsValid st ls
LayoutIsValid st no_stack = ⊥

abbrev pub ScanIsSafe : List ℕ → Scan → Type 0
ScanIsSafe st (again ls) = IsValid st ls
ScanIsSafe st (result out) = IsSafe st out

pub stays : (st : List ℕ) → IsStack st → {ls : LexState} → IsValid st ls → After st ls
stays st order {ls} v = (
  record {
    stopped = v.stopped;
    replayed = v.replayed;
    bytes_fit = v.bytes_fit;
    str_fit = v.str_fit;
    stack = refl;
  },
  subst IsStack (sym v.stack) order,
  inl v.stack,
)

push-After :
    (cur val : ℕ) (prev : List ℕ) (ls : LexState)
    → IsStack (val ∷ prev)
    → IsValid (val ∷ prev) ls
    → val < cur
    → After (val ∷ prev) (
        token tk_indent (record ls { indent = cur ∷ val ∷ prev; indent_used = ls.indent_used - 1 }))
push-After cur val prev ls o v h = (ground arith, (h, o), inr (inl (cur, refl, refl)))

-- The stack stays in order: a deeper line is pushed, and only a value above 0 is popped.
pub compare_indent-IsValid :
    (cur : ℕ) (st : List ℕ) (ls : LexState)
    → IsStack st
    → IsValid st ls
    → LayoutIsValid st (compare_indent cur st ls)
unfolding compare_indent
compare_indent-IsValid cur [] ls o v = absurd o
compare_indent-IsValid cur (val ∷ []) ls o v =
    if_cases (LayoutIsValid (val ∷ [])) (cur == val) (λ _. v)
      (λ ne.
        if_cases (LayoutIsValid (val ∷ [])) (ltb val cur)
          (λ deeper. push-After cur val [] ls o v (ground arith))
          (λ shallower. absurd (ground arith)))
compare_indent-IsValid cur (val ∷ below ∷ prev) ls o v =
    let st = val ∷ below ∷ prev in
    if_cases (LayoutIsValid st) (cur == val) (λ _. v)
      (λ ne.
        if_cases (LayoutIsValid st) (ltb val cur)
          (λ deeper. push-After cur val (below ∷ prev) ls o v (ground arith))
          (λ _. (ground arith, o.1, inr (inr (val, refl, refl)))))
