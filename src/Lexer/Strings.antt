-- ===== src/Lexer/Strings.antt =====
-- `read_str_or_bytes_head` and `read_str_or_bytes`.
use python_lite.Base.{
  ℕ, zero, suc, Bool, true, false, not, ◌&&◌, ◌||◌, [], Option, none, some, leb, ◌==◌,
  if◌then◌else◌,
}
use python_lite.Types.Str.Escape.{str_new}
use python_lite.Lexer.Token.{tk_string, tk_bytes}
use python_lite.Lexer.State.{
  LexState, TokenObj, str_obj, bytes_obj, nextc, start_record, stop_record, halt_record, bs_next,
}

-- The `state` byte of the prefix: r is 1, u is 2 and b is 4.
pub record Prefix : Type 0 where
  pub r : Bool
  pub u : Bool
  pub b : Bool

-- A quote was reached, with the token and `is_raw`; or the text is no string.
pub data Head : Type 0 where
  starts : ℕ → Bool → LexState → Head
  not_str : LexState → Head

-- The switch of the prefix loop: a letter read, or the end. `is_raw`, the pointer, is never NULL.
pub data HeadStep : Type 0 where
  letter : Prefix → HeadStep
  quote : HeadStep
  other : HeadStep

unfoldable pub head_step : Prefix → ℕ → HeadStep
head_step p c =
    if c == b'\'' || c == b'"'
    then quote
    else if c == b'r' || c == b'R'
    then (if p.r then other else letter (record p { r = true }))
    else if c == b'u' || c == b'U'
    then (if p.u || p.b then other else letter (record p { u = true }))
    else if c == b'b' || c == b'B'
    then (if p.u || p.b then other else letter (record p { b = true }))
    else other

-- Each letter sets a bit, so three rounds are enough.
unfoldable pub head_loop : ℕ → Prefix → LexState → Head
unfolding head_step
head_loop zero p ls = not_str (stop_record ls)
head_loop (suc fuel) p ls = elim (head_step p ls.ch) [
  | letter q ↦ head_loop fuel q (nextc ls)
  | quote ↦ starts (if p.b then tk_bytes else tk_string) p.r ls
  | other ↦ not_str (stop_record ls)
]

unfoldable pub read_head : LexState → Head
unfolding head_loop
read_head ls = head_loop 4 (record { r = false; u = false; b = false }) (start_record ls)

-- How a round of the body's loop ends: it goes on, with `escape_flag`; it is at the end of the
-- literal; or the function returns false.
pub data Body : Type 0 where
  next : Bool → LexState → Body
  closed failed : LexState → Body

-- What a literal is: its type, its length class and its quote.
pub record Kind : Type 0 where
  pub is_str : Bool
  pub long : Bool
  pub sign : ℕ

-- The label `_default`.
abbrev pub plain : Kind → Bool → LexState → Body
plain k escape ls =
    if not k.is_str && leb 128 ls.ch
    then failed ls
    else next escape (nextc (bs_next k.is_str ls.ch ls))

-- A quote that is the sign of a long literal.
abbrev pub long_quote : Kind → LexState → Body
long_quote k ls =
    let s1 = nextc ls in
    let s2 = nextc s1 in
    if not (s1.ch == k.sign)
    then next false (bs_next k.is_str k.sign s1)
    else if not (s2.ch == k.sign)
    then next false (bs_next k.is_str k.sign (bs_next k.is_str k.sign s2))
    else closed (nextc s2)

abbrev pub new_line : LexState → LexState
new_line ls = record ls { linenumber = suc ls.linenumber }

-- `if (ls->ch == '\n') nextc(ls);`
abbrev pub skip_lf : LexState → LexState
skip_lf ls = if ls.ch == b'\n' then nextc ls else ls

unfoldable pub body_step : Kind → Bool → LexState → Body
body_step k escape ls =
    if ls.ch == b'\'' || ls.ch == b'"'
    then (if escape
        then plain k false ls
        else if ls.ch == k.sign
        then (if k.long then long_quote k ls else closed (nextc ls))
        else plain k false ls)
    else if ls.ch == b'\n'
    then (if not k.long
        then failed (new_line ls)
        else next false (nextc (bs_next k.is_str ls.ch (new_line ls))))
    else if ls.ch == b'\r'
    then (if not k.long
        then failed (new_line ls)
        else next false (skip_lf (nextc (bs_next k.is_str b'\n' (new_line ls)))))
    else if ls.ch == b'\\'
    then plain k true ls
    else plain k false ls

-- The loop, on fuel. It has no exit at the end of the input.
pub data Read : Type 0 where
  done : LexState → Read
  refused : LexState → Read
  runs : Read

unfoldable pub body_loop : ℕ → Kind → Bool → LexState → Read
body_loop zero k escape ls = runs
body_loop (suc fuel) k escape ls = elim (body_step k escape ls) [
  | next escape' ls' ↦ body_loop fuel k escape' ls'
  | closed ls' ↦ done ls'
  | failed ls' ↦ refused ls'
]

-- The three quotes of a long literal, looked for with the reading recorded.
unfoldable pub open_body : LexState → Bool × LexState
open_body ls =
    let s1 = start_record (nextc ls) in
    let s2 = nextc s1 in
    let s3 = nextc s2 in
    if s1.ch == ls.ch
    then (if s2.ch == ls.ch then (true, halt_record s3) else (false, stop_record s2))
    else (false, stop_record s1)

-- `pos = 0` for the buffer in use.
abbrev pub empty_buffer : Bool → LexState → LexState
empty_buffer is_str ls = if is_str then record ls { str_buf = [] } else record ls { bytes_buf = [] }

-- The label `the_end`: the object of the token, or false where it is NULL. The text of a literal
-- never ends in a lone backslash, so nothing is read behind it and `past` is 0.
abbrev pub with_obj : Option TokenObj → LexState → Read
with_obj none ls = refused (record ls { token_obj = none })
with_obj (some obj) ls = done (record ls { token_obj = some obj })

abbrev pub new_obj : Bool → Bool → LexState → Option TokenObj
new_obj is_str is_raw ls =
    let text = if is_str then ls.str_buf else ls.bytes_buf in
    elim (str_new is_str 0 text is_raw) [
      | none ↦ none
      | some v ↦ some (if is_str then str_obj v else bytes_obj v)
    ]

unfoldable pub finish_body : Bool → Bool → Read → Read
unfolding str_new
finish_body is_str is_raw (done ls) = with_obj (new_obj is_str is_raw ls) ls
finish_body is_str is_raw (refused ls) = refused ls
finish_body is_str is_raw runs = runs

unfoldable pub read_str_or_bytes : ℕ → Bool → LexState → Read
unfolding body_loop body_step open_body finish_body
read_str_or_bytes fuel is_raw ls =
    let is_str = ls.token_val == tk_string in
    let opened = open_body ls in
    let k : Kind = record { is_str = is_str; long = opened.0; sign = ls.ch } in
    finish_body is_str is_raw (body_loop fuel k false (empty_buffer is_str opened.1))
