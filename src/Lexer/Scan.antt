-- ===== src/Lexer/Scan.antt =====
-- The small readers: comments, operators, runs of characters and number literals.
use python_lite.Base.{
  ℕ, zero, suc, Bool, true, false, not, ◌||◌, [], some, ◌==◌, within, if◌then◌else◌, length,
}
use python_lite.Types.Digits.{is_hex, int_from_cstr}
use python_lite.Lexer.Token.{tk_int, tk_float, tk_de_minus_eq, tk_de_ret_type}
use python_lite.Lexer.State.{LexState, int_obj, float_obj, nextc, bytes_next, remaining}

-- What `pylt_lex_next` returns: 0, or one of the three error codes.
pub data Code : Type 0 where
  success invalid_character invalid_number invalid_str_or_bytes : Code

-- `ls->token.val = val`
abbrev pub token : ℕ → LexState → LexState
token val ls = record ls { token_val = val }

-- `do { nextc(ls); } while (ls->ch != '\n' && ls->ch != '\r' && ls->ch != '\0');`
abbrev pub ends_comment : ℕ → Bool
ends_comment c = c == b'\n' || c == b'\r' || c == 0

unfoldable pub comment_loop : ℕ → LexState → LexState
comment_loop zero ls = ls
comment_loop (suc fuel) ls =
    let read = nextc ls in
    elim (ends_comment read.ch) [ true ↦ read | false ↦ comment_loop fuel read ]

unfoldable pub skip_comment : LexState → LexState
unfolding comment_loop
skip_comment ls = comment_loop (suc (remaining ls)) ls

-- `while (test(ls->ch)) { put(ls, ls->ch); nextc(ls); }`
unfoldable pub run_loop : ℕ → (ℕ → Bool) → (ℕ → LexState → LexState) → LexState → LexState
run_loop zero test put ls = ls
run_loop (suc fuel) test put ls = elim (test ls.ch) [
  | true ↦ run_loop fuel test put (nextc (put ls.ch ls))
  | false ↦ ls
]

unfoldable pub read_run : (ℕ → Bool) → (ℕ → LexState → LexState) → LexState → LexState
unfolding run_loop
read_run test put ls = run_loop (suc (suc (remaining ls))) test put ls

-- `get_token_1`: one character, the character with '=', twice, or twice with '='.
unfoldable pub get_token_1 : ℕ → ℕ → ℕ → LexState → LexState
get_token_1 next1_eq_token next1_token next2_token ls =
    let s1 = nextc ls in
    let s2 = nextc s1 in
    if s1.ch == b'='
    then token next1_eq_token s2
    else if s1.ch == ls.ch
    then (if s2.ch == b'=' then token next2_token (nextc s2) else token next1_token s2)
    else token ls.ch s1

-- `get_token_2`: one character, or the character with '='.
unfoldable pub get_token_2 : ℕ → LexState → LexState
get_token_2 next_eq_token ls =
    let s1 = nextc ls in if s1.ch == b'=' then token next_eq_token (nextc s1) else token ls.ch s1

-- `case '-'`
unfoldable pub read_minus : LexState → LexState
read_minus ls =
    let s1 = nextc ls in
    if s1.ch == b'='
    then token tk_de_minus_eq (nextc s1)
    else if s1.ch == b'>'
    then token tk_de_ret_type (nextc s1)
    else token b'-' s1

abbrev pub is_dec : ℕ → Bool
is_dec c = within b'0' b'9' c

abbrev pub is_bin : ℕ → Bool
is_bin c = c == b'0' || c == b'1'

abbrev pub is_oct : ℕ → Bool
is_oct c = within b'0' b'7' c

-- The end of an integer literal, from the digits in the buffer.
abbrev pub finish_int : ℕ → LexState → LexState
finish_int base_n ls = record ls {
  token_val = tk_int;
  token_obj = some (int_obj (int_from_cstr base_n ls.bytes_buf));
}

-- The label `read_dec_float`.
unfoldable pub read_dec_float : LexState → LexState
unfolding read_run
read_dec_float ls =
    let whole = read_run is_dec bytes_next ls in
    let point = nextc (bytes_next b'.' whole) in
    let all = read_run is_dec bytes_next point in
    if whole.ch == b'.'
    then record all {
      token_val = tk_float;
      token_obj = some (float_obj all.bytes_buf (length whole.bytes_buf));
    }
    else finish_int 0 whole

-- `case '1'` to `case '9'`
unfoldable pub read_number : LexState → LexState
unfolding read_dec_float
read_number ls = read_dec_float (nextc (bytes_next ls.ch (record ls { bytes_buf = [] })))

-- Behind "0x", "0b" and "0o", with `ch` on the letter.
unfoldable pub read_radix : ℕ → (ℕ → Bool) → LexState → Code × LexState
unfolding read_run
read_radix base_n test ls =
    let s = nextc ls in
    let t = read_run test bytes_next (record s { bytes_buf = [] }) in
    if not (test s.ch) then (invalid_number, s) else (success, finish_int base_n t)

-- `case '0'`
unfoldable pub read_zero : LexState → Code × LexState
unfolding read_dec_float read_radix is_hex
read_zero ls =
    let s = nextc (bytes_next b'0' (record ls { bytes_buf = [] })) in
    if s.ch == b'x' || s.ch == b'X'
    then read_radix 1 is_hex s
    else if s.ch == b'b' || s.ch == b'B'
    then read_radix 2 is_bin s
    else if s.ch == b'o' || s.ch == b'O'
    then read_radix 3 is_oct s
    else if s.ch == b'.'
    then (success, read_dec_float s)
    else if is_dec s.ch
    then (success, read_dec_float (nextc (bytes_next s.ch s)))
    else (success, finish_int 0 s)
