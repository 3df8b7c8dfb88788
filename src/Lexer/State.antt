-- ===== src/Lexer/State.antt =====
-- `LexState`: the lexer's state, its buffers and the reading of characters with replay.
use python_lite.Base.{
  ℕ, ◌+◌, ◌%◌, Bool, true, false, List, [], ◌∷◌, ◌++◌, Option, none, leb, if◌then◌else◌, length,
}
use python_lite.Base.Int.{ℤ, pos}
use python_lite.Lexer.Token.{tk_end}

-- The object of a token: the arguments of the constructor that the lexer calls, or its value.
pub data TokenObj : Type 0 where
  str_obj bytes_obj : List ℕ → TokenObj
  int_obj : ℕ → TokenObj
  float_obj : List ℕ → ℕ → TokenObj

-- `indent` lists the values on the indent stack, top first, and `indent_used` counts the spare
-- nodes. `current_indent` is `none` for -1. `bytes_buf` and `str_buf` are the buffers up to `pos`.
-- `input` is what the file has left, as decoded code points.
pub record LexState : Type 0 where
  pub linenumber : ℕ
  pub token_val : ℕ
  pub token_obj : Option TokenObj
  pub bytes_buf : List ℕ
  pub bytes_size : ℕ
  pub str_buf : List ℕ
  pub str_size : ℕ
  pub record_on : Bool
  pub record_buf : List ℕ
  pub input : List ℕ
  pub ch : ℕ
  pub current_indent : Option ℕ
  pub inside_couples : ℤ
  pub indent : List ℕ
  pub indent_used : ℕ

-- `pylt_lex_init`. It sets neither `ch` nor the token's object: `ch` is what the memory held.
unfoldable pub lex_init : ℕ → List ℕ → LexState
lex_init ch input = record {
  linenumber = 1;
  token_val = tk_end;
  token_obj = none;
  bytes_buf = [];
  bytes_size = 24;
  str_buf = [];
  str_size = 64;
  record_on = false;
  record_buf = [];
  input = input;
  ch = ch;
  current_indent = none;
  inside_couples = pos 0;
  indent = 0 ∷ [];
  indent_used = 5;
}

-- The spare nodes after `pylt_lex_reset`: what stood below the top of the stack, and the spare
-- ones of before only if nothing did.
abbrev spare_after_reset : List ℕ → ℕ → ℕ
spare_after_reset [] used = used
spare_after_reset (top ∷ []) used = used
spare_after_reset (top ∷ v ∷ prev) used = length (v ∷ prev)

-- `pylt_lex_reset`. The top node stays as the only one, with value 0.
unfoldable pub lex_reset : List ℕ → LexState → LexState
lex_reset input ls = record ls {
  linenumber = 1;
  current_indent = none;
  inside_couples = pos 0;
  input = input;
  token_val = tk_end;
  indent = 0 ∷ [];
  indent_used = spare_after_reset ls.indent ls.indent_used;
  record_on = false;
  record_buf = [];
}

-- `pylt_io_readstr(I, input, &ch, 1)`, with '\0' at the end of the file.
abbrev pub read_from : List ℕ → LexState → LexState
read_from [] ls = record ls { ch = 0 }
read_from (c ∷ cs) ls = record ls { ch = c; input = cs }

abbrev read_char : LexState → LexState
read_char ls = read_from ls.input ls

next_in : Bool → List ℕ → LexState → LexState
next_in true buf ls = let read = read_char ls in record read { record_buf = buf ++ read.ch ∷ [] }
next_in false (c ∷ buf) ls = record ls { ch = c; record_buf = buf }
next_in false [] ls = read_char ls

unfoldable pub nextc : LexState → LexState
unfolding next_in
nextc ls = next_in ls.record_on ls.record_buf ls

unfoldable pub start_record : LexState → LexState
start_record ls = record ls { record_buf = ls.record_buf ++ ls.ch ∷ []; record_on = true }

-- `if (ls->le._record.count) nextc(ls);`
abbrev replay : List ℕ → LexState → LexState
replay [] ls = ls
replay (c ∷ buf) ls = nextc ls

unfoldable pub stop_record : LexState → LexState
unfolding nextc
stop_record ls = replay ls.record_buf (record ls { record_on = false })

unfoldable pub halt_record : LexState → LexState
halt_record ls = record ls { record_on = false; record_buf = [] }

-- Both appends grow a full buffer first.
unfoldable pub bytes_next : ℕ → LexState → LexState
bytes_next chr ls = record ls {
  bytes_size =
      if leb ls.bytes_size (length ls.bytes_buf) then ls.bytes_size + 32 else ls.bytes_size;
  bytes_buf = ls.bytes_buf ++ (chr % 256) ∷ [];
}

unfoldable pub str_next : ℕ → LexState → LexState
str_next chr ls = record ls {
  str_size = if leb ls.str_size (length ls.str_buf) then ls.str_size + 24 else ls.str_size;
  str_buf = ls.str_buf ++ chr ∷ [];
}

unfoldable pub bs_next : Bool → ℕ → LexState → LexState
unfolding bytes_next str_next
bs_next is_str chr ls = if is_str then str_next chr ls else bytes_next chr ls

-- The characters still to come: those to be replayed, then the file's.
abbrev pub pending : LexState → List ℕ
pending ls = ls.record_buf ++ ls.input

abbrev pub remaining : LexState → ℕ
remaining ls = length ls.record_buf + length ls.input
