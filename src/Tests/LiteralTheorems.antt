-- ===== src/Tests/LiteralTheorems.antt =====
-- The theorems of string literals and of line ends at concrete inputs.
use python_lite.Base.{ℕ, ◌+◌, ◌≡◌, refl, List, [], ◌∷◌, codes, true, false, none, some}
use python_lite.Base.Int.{pos}
use python_lite.Lexer.State.{LexState}
use python_lite.Lexer.Strings.{Kind, runs, body_loop}
use python_lite.Lexer.Indent.{indent_step}
use python_lite.Lexer.Next.{scan_loop}
use python_lite.Lexer.Literals.{take_char, body_loop_unterminated, body_loop_backslashes}
use python_lite.Lexer.Lines.{crlf_lines}

-- Before `input` with `ch` read, inside `couples` brackets.
abbrev at : ℕ → List ℕ → ℕ → LexState
at ch input couples = record {
  linenumber = 1;
  token_val = 0;
  token_obj = none;
  bytes_buf = [];
  bytes_size = 24;
  str_buf = [];
  str_size = 64;
  record_on = false;
  record_buf = [];
  input = input;
  ch = ch;
  current_indent = none;
  inside_couples = pos couples;
  indent = 0 ∷ [];
  indent_used = 5;
}

abbrev short_str : Kind
short_str = record { is_str = true; long = false; sign = b'\'' }

body_loop_unterminated_example : body_loop 500 short_str false (at b'a' (codes "bc + d") 0) ≡ runs
body_loop_unterminated_example =
    body_loop_unterminated 500 short_str false (at b'a' (codes "bc + d") 0) refl
      (refl, (refl, (refl, (refl, (refl, (refl, (refl, tt)))))))

-- The body of `'\\'`, with `+ x` behind it.
abbrev backslash : LexState
backslash = at b'\\' (b'\\' ∷ b'\'' ∷ codes "+ x") 0

body_loop_backslashes_example :
    body_loop 8 short_str false backslash
    ≡ body_loop 5 short_str false
        (take_char short_str (take_char short_str (take_char short_str backslash)))
body_loop_backslashes_example =
    body_loop_backslashes 5 short_str false backslash (codes "+ x") refl refl refl refl

abbrev line_end : LexState
line_end = at b'\r' (codes "\nb") 1

crlf_lines_example :
    (inside : LexState) × (start : LexState) × (scan_loop 5 9 line_end ≡ scan_loop 5 7 inside)
    × (inside.linenumber ≡ 1 + 2)
    × (indent_step 0 0 line_end ≡ some (0, start))
    × (start.linenumber ≡ 1 + 1)
crlf_lines_example = crlf_lines 5 7 0 0 0 line_end (codes "b") refl refl refl refl
