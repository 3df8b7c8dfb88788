-- ===== src/Parser/Program.antt =====
-- `parse_block`, `parse_try_compound_stmt`, `parse_stmt`, `parse_stmts`, `pylt_parser_init` and
-- `pylt_parser_parse` of parser.c.
use python_lite.Base.{ℕ, zero, suc, Bool, true, false, ◌||◌, List, [], Option, ◌==◌, if◌then◌else◌}
use python_lite.Lexer.Token.{
  tk_end, tk_newline, tk_indent, tk_dedent, tk_kw_if, tk_kw_while, tk_kw_for, tk_kw_def,
  tk_kw_class, tk_kw_try,
}
use python_lite.Vm.Codes.{bc_halt}
use python_lite.Parser.State.{
  Const, Token, CodeObject, ParserState, out_of_fuel, M, ◌>>=◌, ◌>>◌, return, get, peek, next,
  accept,
}
use python_lite.Parser.Emit.{write_ins, func_scope_check}
use python_lite.Parser.Expr.{parse_try_expr}
use python_lite.Parser.Simple.{parse_simple_stmt}
use python_lite.Parser.Branch.{if_stmt}
use python_lite.Parser.Repeat.{while_stmt, for_stmt}
use python_lite.Parser.Guard.{try_stmt}
use python_lite.Parser.Define.{parse_func, parse_class}

-- `pylt_parser_init`, which leaves the current token and `can_be_left_val` as they are.
unfoldable pub parser_init : Token → Bool → List (Option Token) → ParserState
parser_init token can_be_left_val rest = record {
  token = token;
  rest = rest;
  info = record {
    loop_depth = 0;
    code = record { const_val = []; closure = []; opcodes = []; lnotab = [] };
  };
  prev = [];
  finished = [];
  lval_check = record {
    enable = false;
    can_be_left_val = can_be_left_val;
    startcode = 0;
    expr_level = 0;
    bc_cache = [];
  };
  disable_op_in_parse = false;
  disable_expr_tuple_parse = false;
  disable_return_parse = true;
  token_count = 0;
}

-- `parse_stmts` is given.
abbrev pub block_of : M (Unit {0}) → M (Unit {0})
unfolding accept
block_of stmts = do accept tk_indent; stmts; accept tk_dedent

module _ (same : Const → Const → Bool) (is_base : ℕ → Bool) where
  unfoldable pub compound_switch : ℕ → M Bool → M (Unit {0}) → M (Unit {0}) → ℕ → M Bool
  unfolding if_stmt while_stmt for_stmt parse_func parse_class try_stmt next
  compound_switch fuel try_expr block simple tk =
      if tk == tk_kw_if
      then (if_stmt try_expr block simple fuel >> return true)
      else if tk == tk_kw_while
      then (while_stmt try_expr block simple >> return true)
      else if tk == tk_kw_for
      then (for_stmt try_expr block simple >> return true)
      else if tk == tk_kw_def
      then (parse_func same try_expr block simple fuel >> return true)
      else if tk == tk_kw_class
      then (parse_class same try_expr block simple >> return true)
      else if tk == tk_kw_try
      then (try_stmt same is_base block simple fuel >> return true)
      else if tk == tk_newline
      then (next >> return true)
      else return false

  -- `parse_stmt`, over `parse_block`.
  unfoldable pub parse_stmt : ℕ → M (Unit {0}) → M (Unit {0})
  unfolding compound_switch parse_try_expr parse_simple_stmt
  parse_stmt fuel block = do
    let try_expr = parse_try_expr same fuel
    let simple = parse_simple_stmt same try_expr fuel
    tk ← peek
    ok ← compound_switch fuel try_expr block simple tk
    if ok then return tt else simple

  unfoldable pub parse_stmts : ℕ → M (Unit {0})
  unfolding parse_stmt block_of
  parse_stmts zero ps = out_of_fuel
  parse_stmts (suc fuel) ps =
      let again : M (Unit {0}) = λ ps'. parse_stmts fuel ps' in
      (do
        tk ← peek
        if tk == tk_end || tk == tk_dedent
            then return tt
            else (parse_stmt fuel (block_of again) >> again))
        ps

  -- The code object of the file; the debug build writes a `BC_PRINT` more.
  unfoldable pub parser_parse : ℕ → M CodeObject
  unfolding next parse_stmts write_ins func_scope_check
  parser_parse fuel = do
    next
    parse_stmts fuel
    write_ins bc_halt 0 0
    func_scope_check same []
    ps ← get
    return ps.info.code
