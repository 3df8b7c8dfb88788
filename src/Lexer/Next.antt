-- ===== src/Lexer/Next.antt =====
-- `pylt_lex_next`: the next token.
use python_lite.Base.{
  ℕ, zero, suc, Bool, not, ◌&&◌, ◌||◌, List, [], ◌∷◌, none, some, ltb, leb, ◌==◌, within,
  if◌then◌else◌,
}
use python_lite.Base.Int.{pos, ◌+ℤ◌, ◌-ℤ◌, ltb_ℤ}
use python_lite.Lexer.Token.{
  tk_end, tk_newline, tk_dedent, tk_op_pow, tk_op_floordiv, tk_op_lshift, tk_op_rshift, tk_op_le,
  tk_op_ge, tk_op_eq, tk_op_ne, tk_de_plus_eq, tk_de_mul_eq, tk_de_div_eq, tk_de_floordiv_eq,
  tk_de_mod_eq, tk_de_matmul_eq, tk_de_bitand_eq, tk_de_bitor_eq, tk_de_bitxor_eq, tk_de_rshift_eq,
  tk_de_lshift_eq, tk_de_pow_eq,
}
use python_lite.Lexer.State.{LexState, str_obj, nextc, halt_record, str_next, remaining}
use python_lite.Lexer.Keywords.{read_kw_or_id}
use python_lite.Lexer.Scan.{
  Code, success, invalid_character, invalid_str_or_bytes, token, skip_comment, get_token_1,
  get_token_2, read_minus, read_run, read_number, read_zero,
}
use python_lite.Lexer.Strings.{
  Head, starts, not_str, read_head, Read, done, refused, runs, read_str_or_bytes, new_line,
}
use python_lite.Lexer.Indent.{measure_indent, Layout, layout_token, level, no_stack, compare_indent}

-- The result of a call: it returns a code; it reads a string for ever; or it reads through NULL.
pub data Outcome : Type 0 where
  returns : Code → LexState → Outcome
  hangs : Outcome
  crashes : Outcome

-- `lex_isidentfirst` and `lex_isidentletter`, as the macros are written.
unfoldable pub is_ident_first : ℕ → Bool
is_ident_first c = within b'A' b'Z' c || within b'a' b'z' c || leb b'_' c || leb 128 c

unfoldable pub is_ident_letter : ℕ → Bool
is_ident_letter c =
    within b'A' b'Z' c || within b'a' b'z' c || within b'0' b'9' c || c == b'_' || leb 128 c

-- The label `read_kw_or_id`. The loop is a `do`: the first character is taken unseen.
unfoldable pub read_word : LexState → LexState
unfolding is_ident_letter
read_word ls =
    let first = nextc (str_next ls.ch (record ls { str_buf = [] })) in
    let word = read_run is_ident_letter str_next first in
    record word { token_val = read_kw_or_id word.str_buf; token_obj = some (str_obj word.str_buf) }

-- `case '\0'`
unfoldable pub at_end : List ℕ → LexState → Outcome
at_end [] ls = crashes
at_end (val ∷ []) ls = if ltb 0 val then crashes else returns success (token tk_end ls)
at_end (val ∷ below ∷ prev) ls =
    if ltb 0 val
    then returns success
        (token tk_dedent (record ls { indent = below ∷ prev; current_indent = some below }))
    else returns success (token tk_end ls)

unfoldable pub read_end : LexState → Outcome
unfolding at_end
read_end ls =
    if not (ls.token_val == tk_newline) && not (ls.token_val == tk_dedent)
    then returns success (token tk_newline ls)
    else at_end ls.indent ls

-- `case 'r'` to `case '"'`
unfoldable pub string_end : Read → Outcome
string_end (done ls) = returns success ls
string_end (refused ls) = returns invalid_str_or_bytes ls
string_end runs = hangs

unfoldable pub string_from : ℕ → Head → Outcome
unfolding string_end
string_from fuel (not_str ls) = returns success (read_word ls)
string_from fuel (starts tok is_raw ls) =
    string_end (read_str_or_bytes fuel is_raw (token tok (halt_record ls)))

unfoldable pub read_string : ℕ → LexState → Outcome
unfolding string_from
read_string fuel ls = string_from fuel (read_head ls)

-- `case '!'`
unfoldable pub read_bang : LexState → Outcome
read_bang ls =
    let s = nextc ls in
    if not (s.ch == b'=')
    then returns invalid_character s
    else returns success (token tk_op_ne (nextc s))

abbrev pub accept : LexState → Outcome
accept ls = returns success ls

abbrev pub accept_zero : Code × LexState → Outcome
accept_zero (code, ls) = returns code ls

-- Brackets and the other tokens of one character.
unfoldable pub is_open : ℕ → Bool
is_open c = c == b'(' || c == b'[' || c == b'{'

unfoldable pub is_close : ℕ → Bool
is_close c = c == b')' || c == b']' || c == b'}'

abbrev pub is_single : ℕ → Bool
is_single c = c == b',' || c == b':' || c == b'.' || c == b'~'

-- The operators of the switch, or what the other characters give.
unfoldable pub read_operator : LexState → Outcome → Outcome
read_operator ls others =
    if ls.ch == b'<'
    then accept (get_token_1 tk_op_le tk_op_lshift tk_de_lshift_eq ls)
    else if ls.ch == b'>'
    then accept (get_token_1 tk_op_ge tk_op_rshift tk_de_rshift_eq ls)
    else if ls.ch == b'/'
    then accept (get_token_1 tk_de_div_eq tk_op_floordiv tk_de_floordiv_eq ls)
    else if ls.ch == b'*'
    then accept (get_token_1 tk_de_mul_eq tk_op_pow tk_de_pow_eq ls)
    else if ls.ch == b'='
    then accept (get_token_2 tk_op_eq ls)
    else if ls.ch == b'+'
    then accept (get_token_2 tk_de_plus_eq ls)
    else if ls.ch == b'-'
    then accept (read_minus ls)
    else if ls.ch == b'%'
    then accept (get_token_2 tk_de_mod_eq ls)
    else if ls.ch == b'@'
    then accept (get_token_2 tk_de_matmul_eq ls)
    else if ls.ch == b'&'
    then accept (get_token_2 tk_de_bitand_eq ls)
    else if ls.ch == b'|'
    then accept (get_token_2 tk_de_bitor_eq ls)
    else if ls.ch == b'^'
    then accept (get_token_2 tk_de_bitxor_eq ls)
    else if ls.ch == b'!'
    then read_bang ls
    else others

-- The literals, the words and the end of the input.
unfoldable pub starts_string : ℕ → Bool
starts_string c =
    c == b'r'
    || c == b'R'
    || c == b'b'
    || c == b'B'
    || c == b'u'
    || c == b'U'
    || c == b'\''
    || c == b'"'

unfoldable pub read_literal : ℕ → LexState → Outcome
unfolding is_ident_first
read_literal fuel ls =
    if ls.ch == b'0'
    then accept_zero (read_zero ls)
    else if within b'1' b'9' ls.ch
    then accept (read_number ls)
    else if starts_string ls.ch
    then read_string fuel ls
    else if ls.ch == 0
    then read_end ls
    else if is_ident_first ls.ch
    then accept (read_word ls)
    else returns invalid_character ls

-- A round of the loop `for (;;)`: it goes on, or the function returns.
pub data Scan : Type 0 where
  again : LexState → Scan
  result : Outcome → Scan

unfoldable pub scan_step : ℕ → LexState → Scan
scan_step fuel ls =
    if ls.ch == b'#'
    then again (skip_comment ls)
    else if ls.ch == b'\n' || ls.ch == b'\r'
    then (if ltb_ℤ (pos 0) ls.inside_couples
        then again (nextc (new_line ls))
        else result (accept (token tk_newline (record (new_line ls) { current_indent = none }))))
    else if ls.ch == b' ' || ls.ch == b'\t'
    then again (nextc ls)
    else if is_open ls.ch
    then result
        (accept (nextc (token ls.ch (record ls { inside_couples = ls.inside_couples +ℤ pos 1 }))))
    else if is_close ls.ch
    then result
        (accept (nextc (token ls.ch (record ls { inside_couples = ls.inside_couples -ℤ pos 1 }))))
    else if is_single ls.ch
    then result (accept (nextc (token ls.ch ls)))
    else result (read_operator ls (read_literal fuel ls))

-- `rounds` bounds the rounds of the loop `for (;;)`.
unfoldable pub scan_loop : ℕ → ℕ → LexState → Outcome
scan_loop fuel zero ls = hangs
scan_loop fuel (suc rounds) ls = elim (scan_step fuel ls) [
  | again ls' ↦ scan_loop fuel rounds ls'
  | result out ↦ out
]

unfoldable pub after_layout : ℕ → Layout → Outcome
unfolding scan_loop scan_step
after_layout fuel (layout_token ls) = returns success ls
after_layout fuel (level ls) = scan_loop fuel (suc (suc (remaining ls))) ls
after_layout fuel no_stack = crashes

-- `fuel` bounds the rounds over the body of a string literal.
unfoldable pub lex_next : ℕ → LexState → Outcome
unfolding after_layout
lex_next fuel ls =
    let (cur, measured) = measure_indent ls in
    after_layout fuel (compare_indent cur measured.indent measured)
