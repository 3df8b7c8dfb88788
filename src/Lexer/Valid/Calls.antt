-- ===== src/Lexer/Valid/Calls.antt =====
-- `pylt_lex_next` keeps the lexer's invariant, and does not crash where it holds.
use python_lite.Base.{
  inr, sym, ltb, if_cases, ℕ, zero, suc, refl, not, ◌||◌, ◌&&◌, List, [], ◌∷◌, arith, ◌==◌, within,
  if_both, some, none, Option, if◌then◌else◌,
}
use python_lite.Base.Int.{ℤ, pos, ltb_ℤ}
use mathlib.Core.Path.{subst}
use python_lite.Lexer.Token.{tk_end, tk_newline, tk_dedent}
use python_lite.Lexer.State.{LexState, nextc, halt_record, remaining}
use python_lite.Lexer.Scan.{get_token_1, get_token_2, success, token}
use python_lite.Lexer.Strings.{Head, starts, not_str, Read, done, refused, runs, new_line}
use python_lite.Lexer.Indent.{
  indent_step, indent_loop, measure_in, measure_indent, Layout, layout_token, level, no_stack,
  compare_indent,
}
use python_lite.Lexer.Next.{
  Outcome, returns, read_word, at_end, read_end, string_end, string_from, read_string, read_bang,
  read_operator, is_open, is_close, is_single, starts_string, is_ident_first, read_literal, again,
  result, scan_step, scan_loop, after_layout, lex_next,
}
use python_lite.Lexer.Valid.{
  IsStack, IsValid, nextc-IsValid, token-IsValid, skip_comment-IsValid, get_token_1-IsValid,
  get_token_2-IsValid, read_minus-IsValid,
}
use python_lite.Lexer.Valid.Numbers.{read_number-IsValid, read_zero-IsValid}
use python_lite.Lexer.Valid.Strings.{
  new_line-IsValid, skip_lf-IsValid, ReadIsValid, read_str_or_bytes-IsValid,
}
use python_lite.Lexer.Valid.Recording.{IsDraining, HeadIsValid, read_head-IsValid}
use python_lite.Lexer.Valid.Words.{read_word-IsValid}
use python_lite.Lexer.Valid.Layout.{
  IsSafe, StepIsValid, MeasuredIsValid, LayoutIsValid, ScanIsSafe, stays, compare_indent-IsValid,
}

at_end-IsSafe :
    (st : List ℕ) (ls : LexState) → IsStack st → IsValid st ls → IsSafe st (at_end st ls)
unfolding at_end
at_end-IsSafe [] ls o v = absurd o
at_end-IsSafe (val ∷ []) ls o v =
    if_cases (IsSafe (val ∷ [])) (ltb 0 val) (λ h. absurd (ground arith))
      (λ _. stays (val ∷ []) o (token-IsValid tk_end v))
at_end-IsSafe (val ∷ below ∷ prev) ls o v =
    let st = val ∷ below ∷ prev in
    if_cases (IsSafe st) (ltb 0 val) (λ _. (ground arith, o.1, inr (inr (val, refl, refl))))
      (λ _. stays st o (token-IsValid tk_end v))

module _ (st : List ℕ) (order : IsStack st) where
  pub indent_step-IsValid :
      (lastch cur : ℕ) {ls : LexState} → IsValid st ls → StepIsValid st (indent_step lastch cur ls)
  unfolding indent_step
  indent_step-IsValid lastch cur {ls} v =
      let n = new_line-IsValid v in
      if_both (StepIsValid st) (ls.ch == b'#') (skip_comment-IsValid v) (
        if_both (StepIsValid st) (ls.ch == b'\n')
          (nextc-IsValid (if_both (IsValid st) (not (lastch == b'\r')) n v))
          (if_both (StepIsValid st) (ls.ch == b'\r') (skip_lf-IsValid (nextc-IsValid n)) (
            if_both (StepIsValid st) (ls.ch == b' ') (nextc-IsValid v)
              (if_both (StepIsValid st) (ls.ch == b'\t') (nextc-IsValid v) tt))))

  with_indent-IsValid :
      (cur : ℕ) {ls : LexState}
      → IsValid st ls
      → IsValid st (record ls { current_indent = some cur })
  with_indent-IsValid cur v = ground arith

  indent_loop-IsValid :
      (fuel lastch cur : ℕ) {ls : LexState}
      → IsValid st ls
      → MeasuredIsValid st (indent_loop fuel lastch cur ls)
  unfolding indent_loop
  indent_loop-IsValid zero lastch cur v = v
  indent_loop-IsValid (suc fuel) lastch cur {ls} v =
      (elim (indent_step lastch cur ls)
          as (λ s.
            (StepIsValid st) s
            → (MeasuredIsValid st) (elim s [
              | none ↦ (cur, record ls { current_indent = some cur })
              | some (cur', ls') ↦ indent_loop fuel lastch cur' ls'
            ])) [
              | none ↦ λ _. with_indent-IsValid cur v
              | some (cur', ls') ↦ λ w. indent_loop-IsValid fuel lastch cur' w
            ])
        (indent_step-IsValid lastch cur v)

  pub measure_indent-IsValid :
      {ls : LexState} → IsValid st ls → MeasuredIsValid st (measure_indent ls)
  unfolding measure_indent measure_in
  measure_indent-IsValid {ls} v = measured ls.current_indent
    where
      measured : (c : Option ℕ) → (MeasuredIsValid st) (measure_in c ls)
      measured none =
          indent_loop-IsValid (suc (suc (remaining (nextc ls)))) ls.ch 0 (nextc-IsValid v)
      measured (some cur) = v

  valid_IsDraining : {ls : LexState} → IsValid st ls → IsDraining st ls
  valid_IsDraining v = ground arith

  word-IsSafe : {ls : LexState} → IsValid st ls → IsSafe st (returns success (read_word ls))
  word-IsSafe {ls} v = stays st order (read_word-IsValid ls (valid_IsDraining v))

  read_end-IsSafe : {ls : LexState} → IsValid st ls → IsSafe st (read_end ls)
  unfolding read_end
  read_end-IsSafe {ls} v =
      if_both (IsSafe st) (not (ls.token_val == tk_newline) && not (ls.token_val == tk_dedent))
        (stays st order (token-IsValid tk_newline v))
        (subst (λ z. IsSafe st (at_end z ls)) (sym v.stack) (at_end-IsSafe st ls order v))

  string_end-IsSafe : (r : Read) → ReadIsValid st r → IsSafe st (string_end r)
  unfolding string_end
  string_end-IsSafe (done ls) v = stays st order v
  string_end-IsSafe (refused ls) v = stays st order v
  string_end-IsSafe runs v = tt

  string_from-IsSafe : (fuel : ℕ) (h : Head) → HeadIsValid st h → IsSafe st (string_from fuel h)
  unfolding string_from halt_record
  string_from-IsSafe fuel (not_str ls) d = stays st order (read_word-IsValid ls d)
  string_from-IsSafe fuel (starts tok is_raw ls) (v, q) =
      string_end-IsSafe _ (read_str_or_bytes-IsValid fuel is_raw v q)

  read_bang-IsSafe : {ls : LexState} → IsValid st ls → IsSafe st (read_bang ls)
  unfolding read_bang
  read_bang-IsSafe {ls} v =
      let s = nextc-IsValid v in
      if_both (IsSafe st) (not ((nextc ls).ch == b'=')) (stays st order s)
        (stays st order (token-IsValid _ (nextc-IsValid s)))

  read_operator-IsSafe :
      {ls : LexState} (others : Outcome)
      → IsValid st ls
      → IsSafe st others
      → IsSafe st (read_operator ls others)
  unfolding read_operator
  read_operator-IsSafe {ls} others v o =
      let one : (c a b d : ℕ) (y : Outcome)
          → (IsSafe st) y
          → (IsSafe st) (if ls.ch == c then returns success (get_token_1 a b d ls) else y) =
        λ c a b d y h.
          if_both (IsSafe st) (ls.ch == c) (stays st order (get_token_1-IsValid a b d v)) h in
      let two : (c a : ℕ) (y : Outcome)
          → (IsSafe st) y
          → (IsSafe st) (if ls.ch == c then returns success (get_token_2 a ls) else y) =
        λ c a y h. if_both (IsSafe st) (ls.ch == c) (stays st order (get_token_2-IsValid a v)) h in
      one _ _ _ _ _ (
        one _ _ _ _ _ (
          one _ _ _ _ _ (
            one _ _ _ _ _ (
              two _ _ _ (
                two _ _ _ (
                  if_both (IsSafe st) (ls.ch == b'-') (stays st order (read_minus-IsValid v)) (
                    two _ _ _ (
                      two _ _ _ (
                        two _ _ _ (
                          two _ _ _ (
                            two _ _ _ (
                              if_both (IsSafe st) (ls.ch == b'!') (read_bang-IsSafe v) o))))))))))))

  read_literal-IsSafe :
      (fuel : ℕ) {ls : LexState} → IsValid st ls → IsSafe st (read_literal fuel ls)
  unfolding read_literal read_string
  read_literal-IsSafe fuel {ls} v =
      if_both (IsSafe st) (ls.ch == b'0') (stays st order (read_zero-IsValid v)) (
        if_both (IsSafe st) (within b'1' b'9' ls.ch) (stays st order (read_number-IsValid v)) (
          if_both (IsSafe st) (starts_string ls.ch)
            (string_from-IsSafe fuel _ (read_head-IsValid v))
            (if_both (IsSafe st) (ls.ch == 0) (read_end-IsSafe v)
              (if_both (IsSafe st) (is_ident_first ls.ch) (word-IsSafe v) (stays st order v)))))

  end_line-IsValid :
      {ls : LexState}
      → IsValid st ls
      → IsValid st (token tk_newline (record (new_line ls) { current_indent = none }))
  end_line-IsValid v = ground arith

  couple-IsValid :
      (z : ℤ) (t : ℕ) {ls : LexState}
      → IsValid st ls
      → IsValid st (token t (record ls { inside_couples = z }))
  couple-IsValid z t v = ground arith

  pub scan_step-IsSafe :
      (fuel : ℕ) {ls : LexState} → IsValid st ls → ScanIsSafe st (scan_step fuel ls)
  unfolding scan_step
  scan_step-IsSafe fuel {ls} v = if_both (ScanIsSafe st) (ls.ch == b'#') (skip_comment-IsValid v) (
      if_both (ScanIsSafe st) (ls.ch == b'\n' || ls.ch == b'\r')
        (if_both (ScanIsSafe st) (ltb_ℤ (pos 0) ls.inside_couples)
          (nextc-IsValid (new_line-IsValid v)) (stays st order (end_line-IsValid v)))
        (if_both (ScanIsSafe st) (ls.ch == b' ' || ls.ch == b'\t') (nextc-IsValid v) (
          if_both (ScanIsSafe st) (is_open ls.ch)
            (stays st order (nextc-IsValid (couple-IsValid _ ls.ch v)))
            (if_both (ScanIsSafe st) (is_close ls.ch)
              (stays st order (nextc-IsValid (couple-IsValid _ ls.ch v)))
              (if_both (ScanIsSafe st) (is_single ls.ch)
                (stays st order (nextc-IsValid (token-IsValid ls.ch v)))
                (read_operator-IsSafe (read_literal fuel ls) v (read_literal-IsSafe fuel v)))))))

  scan_loop-IsSafe :
      (fuel rounds : ℕ) {ls : LexState} → IsValid st ls → IsSafe st (scan_loop fuel rounds ls)
  unfolding scan_loop
  scan_loop-IsSafe fuel zero v = tt
  scan_loop-IsSafe fuel (suc rounds) {ls} v =
      (elim (scan_step fuel ls)
          as (λ s.
            (ScanIsSafe st) s
            → (IsSafe st) (elim s [ again ls' ↦ scan_loop fuel rounds ls' | result out ↦ out ])) [
              | again ls' ↦ λ w. scan_loop-IsSafe fuel rounds w
              | result out ↦ λ w. w
            ])
        (scan_step-IsSafe fuel v)

  after_layout-IsSafe :
      (fuel : ℕ) (l : Layout) → LayoutIsValid st l → IsSafe st (after_layout fuel l)
  unfolding after_layout
  after_layout-IsSafe fuel (layout_token ls) v = v
  after_layout-IsSafe fuel (level ls) v = scan_loop-IsSafe fuel (suc (suc (remaining ls))) v
  after_layout-IsSafe fuel no_stack v = v

-- A call of `lex_next` in a valid state, on any input and with any fuel: it does not read through
-- a NULL indent node; in the state after it nothing is left to replay, each buffer lies within its
-- size, and the indent stack falls strictly to a 0 at its bottom; and the stack is unchanged, or
-- one value was pushed and the token is INDENT, or one was popped and the token is DEDENT.
pub lex_next-IsSafe :
    (fuel : ℕ) (ls : LexState)
    → IsValid ls.indent ls
    → IsStack ls.indent
    → IsSafe ls.indent (lex_next fuel ls)
unfolding lex_next
lex_next-IsSafe fuel ls v order =
    let m = measure_indent ls in
    let w = measure_indent-IsValid ls.indent order v in
    after_layout-IsSafe ls.indent order fuel _ (
      subst (λ z. LayoutIsValid ls.indent (compare_indent m.0 z m.1)) (sym w.stack)
        (compare_indent-IsValid m.0 ls.indent m.1 order w))
