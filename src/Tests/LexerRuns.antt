-- ===== src/Tests/LexerRuns.antt =====
-- The lexer on small programs.
use python_lite.Base.{ℕ, zero, suc, ◌≡◌, refl, List, [], ◌∷◌, codes}
use python_lite.Lexer.Token.{
  tk_end, tk_newline, tk_indent, tk_dedent, tk_name, tk_int, tk_bytes, tk_kw_if, tk_op_pow,
}
use python_lite.Base.Int.{◌+ℤ◌, ◌-ℤ◌}
use python_lite.Types.Digits.{int_from_cstr}
use python_lite.Types.Str.Escape.{str_new}
use python_lite.Lexer.State.{
  LexState, lex_init, nextc, start_record, stop_record, halt_record, bytes_next, str_next, bs_next,
}
use python_lite.Lexer.Keywords.{read_kw_or_id}
use python_lite.Lexer.Scan.{
  skip_comment, get_token_1, get_token_2, read_minus, read_run, read_number, read_zero,
}
use python_lite.Lexer.Strings.{read_head, read_str_or_bytes}
use python_lite.Lexer.Indent.{measure_indent, compare_indent}
use python_lite.Lexer.Next.{
  returns, hangs, crashes, lex_next, is_open, is_close, read_operator, read_literal, starts_string,
  read_word, read_end, read_string, read_bang,
}

-- The values of the tokens of up to `n` calls; a call that fails ends them with 0.
tokens_of : ℕ → LexState → List ℕ
unfolding lex_next lex_init compare_indent measure_indent nextc is_open is_close read_operator
    read_literal starts_string read_word read_kw_or_id read_run str_next get_token_1 get_token_2
    read_minus read_number read_zero bytes_next read_end read_string read_head start_record
    stop_record halt_record read_str_or_bytes bs_next read_bang skip_comment ◌+ℤ◌ ◌-ℤ◌ int_from_cstr
    str_new
tokens_of zero ls = []
tokens_of (suc n) ls = elim (lex_next 100 ls) [
  | returns code ls' ↦ ls'.token_val ∷ tokens_of n ls'
  | hangs ↦ 0 ∷ []
  | crashes ↦ 0 ∷ []
]

run_block :
    tokens_of 13 (lex_init 0 (codes "if x:\n  y ** 1\n"))
    ≡ tk_kw_if ∷ tk_name ∷ b':' ∷ tk_newline ∷ tk_indent ∷ tk_name ∷ tk_op_pow ∷ tk_int ∷ tk_newline
      ∷ tk_dedent ∷ tk_end ∷ tk_newline ∷ tk_end ∷ []
unfolding tokens_of
run_block = refl

run_string : tokens_of 3 (lex_init 0 (codes "rb'a\\'b'+bux")) ≡ tk_bytes ∷ b'+' ∷ tk_name ∷ []
unfolding tokens_of
run_string = refl
