-- ===== src/Lexer/Exits.antt =====
-- The inner loops of the lexer end by their own tests, never for want of rounds.
use mathlib.Core.Bool.{false≢true}
use python_lite.Base.{
  ℕ, zero, suc, ◌≤◌, ◌<◌, ◌≡◌, refl, sym, ap, ◌∙◌, ==_iff, Bool, true, false, not, List, Option,
  none, some, arith, ◌==◌, Bool-cases, inl, inr, if_cases, if_both,
}
use python_lite.Lexer.State.{LexState, nextc, remaining, bytes_next, str_next}
use python_lite.Lexer.Scan.{comment_loop, ends_comment, skip_comment, run_loop, read_run}
use python_lite.Lexer.Strings.{skip_lf}
use python_lite.Lexer.Indent.{indent_step, indent_loop, measure_in}
use python_lite.Lexer.Rounds.{run_loop-more, run_loop_end}
use python_lite.Lexer.Valid.{IsStack, IsValid, bytes_next-IsValid, str_next-IsValid, nextc-IsValid}
use python_lite.Lexer.Valid.Strings.{new_line-IsValid}
use python_lite.Lexer.Valid.Layout.{StepIsValid}
use python_lite.Lexer.Valid.Calls.{indent_step-IsValid}
use python_lite.Lexer.Halts.{measure, measure-nextc, measure-nextc-lt, skip_comment-measure}

remaining-nextc :
    {st : List ℕ} {ls : LexState}
    → IsValid st ls
    → ((nextc ls).ch == 0) ≡ false
    → remaining (nextc ls) < remaining ls
unfolding nextc
remaining-nextc v h = ground arith

not-ends : (c : ℕ) → ends_comment c ≡ false → (c == 0) ≡ false
not-ends c h = ground arith

comment_loop_ends :
    {st : List ℕ} (fuel : ℕ) (ls : LexState)
    → IsValid st ls
    → remaining ls < fuel
    → ends_comment (comment_loop fuel ls).ch ≡ true
unfolding comment_loop
comment_loop_ends zero ls v m = absurd (omega arith)
comment_loop_ends (suc fuel) ls v m =
    (elim (ends_comment (nextc ls).ch)
        as (λ b.
          ends_comment (nextc ls).ch ≡ b
          → ends_comment
              (elim b as (λ _. LexState) [
                | true ↦ nextc ls
                | false ↦ comment_loop fuel (nextc ls)
              ]).ch
            ≡ true) [
              | true ↦ λ e. e
              | false ↦ λ e.
                  comment_loop_ends fuel (nextc ls) (nextc-IsValid v)
                    (omega (arith, remaining-nextc v (not-ends (nextc ls).ch e)))
            ])
      refl

skip_comment_ends :
    {st : List ℕ} (ls : LexState) → IsValid st ls → ends_comment (skip_comment ls).ch ≡ true
unfolding skip_comment
skip_comment_ends ls v = comment_loop_ends (suc (remaining ls)) ls v (omega arith)

not-zero : (test : ℕ → Bool) (c : ℕ) → test 0 ≡ false → test c ≡ true → (c == 0) ≡ false
not-zero test c z h = elim (Bool-cases (c == 0)) [
  | inl e ↦ let same = (==_iff c 0).0 e in absurd (false≢true (sym z ∙ ap test (sym same) ∙ h))
  | inr e ↦ e
]

-- The loop over a run ends at a character that is not of the run.
run_loop_ends :
    {st : List ℕ} (test : ℕ → Bool) (put : ℕ → LexState → LexState)
    → test 0 ≡ false
    → ((c : ℕ) (ls : LexState) → IsValid st ls → IsValid st (put c ls))
    → ((c : ℕ) (ls : LexState) → ((put c ls).ch ≡ ls.ch) × (measure (put c ls) ≡ measure ls))
    → (fuel : ℕ) (ls : LexState) → IsValid st ls
    → measure ls < fuel
    → test (run_loop fuel test put ls).ch ≡ false
run_loop_ends test put z keep same zero ls v m = absurd (omega arith)
run_loop_ends test put z keep same (suc fuel) ls v m = elim (Bool-cases (test ls.ch)) [
  | inl more ↦
      let n = put ls.ch ls in
      let w = keep ls.ch ls v in
      let lt = measure-nextc-lt w (rw ((same ls.ch ls).0) (not-zero test ls.ch z more)) in
      rw (run_loop-more fuel test put ls more) (
        run_loop_ends test put z keep same fuel (nextc n) (nextc-IsValid w)
          (omega (arith, lt, (same ls.ch ls).1)))
  | inr end ↦ rw (run_loop_end fuel test put ls end) end
]

abbrev StepShrinks : LexState → Option (ℕ × LexState) → Type 0
StepShrinks ls none = Unit
StepShrinks ls (some (cur, ls')) = measure ls' < measure ls

measure-skip_lf : {st : List ℕ} (ls : LexState) → IsValid st ls → measure (skip_lf ls) ≤ measure ls
measure-skip_lf ls v =
    if_both (λ s. measure s ≤ measure ls) (ls.ch == b'\n') (measure-nextc v) (omega arith)

indent_step-Shrinks :
    {st : List ℕ} (lastch cur : ℕ) (ls : LexState)
    → IsValid st ls
    → StepShrinks ls (indent_step lastch cur ls)
unfolding indent_step
indent_step-Shrinks lastch cur ls v =
    let P = StepShrinks ls in
    let n = new_line-IsValid v in
    if_cases P (ls.ch == b'#') (λ h. skip_comment-measure ls v (ground arith))
      (λ _.
        if_cases P (ls.ch == b'\n')
          (λ h.
            if_both (λ s. measure (nextc s) < measure ls) (not (lastch == b'\r'))
              (measure-nextc-lt n (ground arith)) (measure-nextc-lt v (ground arith)))
          (λ _.
            if_cases P (ls.ch == b'\r')
              (λ h.
                let lt = measure-nextc-lt n (ground arith) in
                omega (arith, lt, measure-skip_lf _ (nextc-IsValid n)))
              (λ _.
                if_cases P (ls.ch == b' ') (λ h. measure-nextc-lt v (ground arith))
                  (λ _.
                    if_cases P (ls.ch == b'\t') (λ h. measure-nextc-lt v (ground arith))
                      (λ _. tt)))))

-- The indentation loop has ended by its test: the column is stored, and no character of a blank
-- line or of an indentation comes next.
abbrev pub Measured : ℕ × LexState → Type 0
Measured r = (r.1.current_indent ≡ some r.0) × ((lastch : ℕ) → indent_step lastch r.0 r.1 ≡ none)

indent_step_any :
    (l m c : ℕ) (cur : ℕ) (ls : LexState)
    → indent_step l c ls ≡ none
    → indent_step m cur (record ls { current_indent = some cur }) ≡ none
unfolding indent_step
indent_step_any l m c cur ls e = ground arith

indent_loop-Measured :
    {st : List ℕ} (fuel lastch cur : ℕ) (ls : LexState)
    → IsStack st
    → IsValid st ls
    → measure ls < fuel
    → Measured (indent_loop fuel lastch cur ls)
unfolding indent_loop
indent_loop-Measured zero lastch cur ls o v m = absurd (omega arith)
indent_loop-Measured {st} (suc fuel) lastch cur ls o v m =
    (elim (indent_step lastch cur ls)
        as (λ s.
          indent_step lastch cur ls ≡ s
          → StepShrinks ls s
          → StepIsValid st s
          → Measured (elim s [
            | none ↦ (cur, record ls { current_indent = some cur })
            | some (cur', ls') ↦ indent_loop fuel lastch cur' ls'
          ])) [
            | none ↦ λ e lt w. (refl, λ l. indent_step_any lastch l cur cur ls e)
            | some (cur', ls') ↦
                λ e lt w. indent_loop-Measured fuel lastch cur' ls' o w (omega arith)
          ])
      refl (indent_step-Shrinks lastch cur ls v) (indent_step-IsValid st o lastch cur v)

bytes_next_keeps :
    (c : ℕ) (ls : LexState)
    → ((bytes_next c ls).ch ≡ ls.ch) × (measure (bytes_next c ls) ≡ measure ls)
unfolding bytes_next
bytes_next_keeps c ls = (refl, refl)

str_next_keeps :
    (c : ℕ) (ls : LexState) → ((str_next c ls).ch ≡ ls.ch) × (measure (str_next c ls) ≡ measure ls)
unfolding str_next
str_next_keeps c ls = (refl, refl)

-- The three inner loops in a valid state. At the start of a line the indentation loop has stored
-- the column that it returns and stands at the first character that is no blank, line end or
-- comment. A comment ends at a line end or at the end of the input. A run of characters by any
-- test that '\0' fails, put into the buffer of digits or into that of a text, ends at a character
-- that fails the test.
pub loops_exit :
    {st : List ℕ} (ls : LexState) (test : ℕ → Bool)
    → IsStack st
    → IsValid st ls
    → test 0 ≡ false
    → Measured (measure_in none ls)
      × (ends_comment (skip_comment ls).ch ≡ true)
      × (test (read_run test bytes_next ls).ch ≡ false)
      × (test (read_run test str_next ls).ch ≡ false)
unfolding measure_in read_run
loops_exit ls test o v z = (
  indent_loop-Measured (suc (suc (remaining (nextc ls)))) ls.ch 0 (nextc ls) o (nextc-IsValid v)
      (ground arith),
  skip_comment_ends ls v,
  run_loop_ends test bytes_next z (λ c s w. bytes_next-IsValid c w) bytes_next_keeps
      (suc (suc (remaining ls))) ls v (ground arith),
  run_loop_ends test str_next z (λ c s w. str_next-IsValid c w) str_next_keeps
      (suc (suc (remaining ls))) ls v (ground arith),
)
