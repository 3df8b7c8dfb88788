-- ===== src/Lexer/Indent.antt =====
-- The first part of `pylt_lex_next`: the indentation of a new line, and the INDENT and DEDENT
-- tokens that it gives.
use python_lite.Base.{
  ℕ, zero, suc, ◌+◌, ◌-◌, not, List, [], ◌∷◌, Option, none, some, ltb, ◌==◌, if◌then◌else◌,
}
use python_lite.Lexer.Token.{tk_indent, tk_dedent}
use python_lite.Lexer.State.{LexState, nextc, remaining}
use python_lite.Lexer.Scan.{skip_comment, token}
use python_lite.Lexer.Strings.{skip_lf, new_line}

-- One round of the loop over the start of a line: the new `cur_indent` and state, or `none` at
-- the first character of a token.
unfoldable pub indent_step : ℕ → ℕ → LexState → Option (ℕ × LexState)
indent_step lastch cur ls =
    if ls.ch == b'#'
    then some (cur, skip_comment ls)
    else if ls.ch == b'\n'
    then some (0, nextc (if not (lastch == b'\r') then new_line ls else ls))
    else if ls.ch == b'\r'
    then some (0, skip_lf (nextc (new_line ls)))
    else if ls.ch == b' '
    then some (cur + 1, nextc ls)
    else if ls.ch == b'\t'
    then some (cur + 8, nextc ls)
    else none

unfoldable pub indent_loop : ℕ → ℕ → ℕ → LexState → ℕ × LexState
indent_loop zero lastch cur ls = (cur, ls)
indent_loop (suc fuel) lastch cur ls = elim (indent_step lastch cur ls) [
  | none ↦ (cur, record ls { current_indent = some cur })
  | some (cur', ls') ↦ indent_loop fuel lastch cur' ls'
]

-- `if (cur_indent == -1) { … }`
unfoldable pub measure_in : Option ℕ → LexState → ℕ × LexState
unfolding indent_loop indent_step
measure_in (some cur) ls = (cur, ls)
measure_in none ls = let s = nextc ls in indent_loop (suc (suc (remaining s))) ls.ch 0 s

unfoldable pub measure_indent : LexState → ℕ × LexState
unfolding measure_in
measure_indent ls = measure_in ls.current_indent ls

-- The label `indent_end`.
pub data Layout : Type 0 where
  layout_token : LexState → Layout
  level : LexState → Layout
  no_stack : Layout

-- A spare node is taken if there is one.
unfoldable pub compare_indent : ℕ → List ℕ → LexState → Layout
compare_indent cur [] ls = no_stack
compare_indent cur (val ∷ prev) ls =
    if cur == val
    then level ls
    else if ltb val cur
    then layout_token (
        token tk_indent (record ls { indent = cur ∷ val ∷ prev; indent_used = ls.indent_used - 1 }))
    else layout_token
        (token tk_dedent (record ls { indent = prev; indent_used = ls.indent_used + 1 }))
