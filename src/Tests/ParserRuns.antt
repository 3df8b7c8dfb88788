-- ===== src/Tests/ParserRuns.antt =====
-- Runs of the expression parser.
use python_lite.Base.{ℕ, Bool, List, [], ◌∷◌, true, false, some, map, ◌==◌}
use python_lite.Lexer.Token.{tk_name, tk_int, tk_newline}
use python_lite.Vm.Codes.{Instruction}
use python_lite.Parser.State.{
  Const, none_obj, bool_obj, value, fraction, lambda_name, params, code, Token, ParserState, Parse,
  done, error, undefined, out_of_fuel,
}
use python_lite.Parser.Expr.{parse_try_expr}

-- Two values are equal if their addresses are.
abbrev pub same : Const → Const → Bool
same (value a) (value b) = a == b
same none_obj c = false
same (bool_obj a) c = false
same (fraction a) c = false
same lambda_name c = false
same Const.base_exception c = false
same (params a) c = false
same (code a) c = false
same (value a) c = false

abbrev pub tok : ℕ → ℕ → Token
tok v o = record { val = v; obj = o; linenumber = 1 }

abbrev pub start : Token → List Token → ParserState
start t ts = record {
  token = t;
  rest = map some ts;
  info = record {
    loop_depth = 0;
    code = record { const_val = []; closure = []; opcodes = []; lnotab = [] };
  };
  prev = [];
  finished = [];
  lval_check = record {
    enable = false;
    can_be_left_val = false;
    startcode = 0;
    expr_level = 0;
    bc_cache = [];
  };
  disable_op_in_parse = false;
  disable_expr_tuple_parse = false;
  disable_return_parse = true;
  token_count = 0;
}

-- The instructions as triples.
abbrev shown : Parse Bool → List (ℕ × ℕ × ℕ)
shown (done b ps) = map (λ (i : Instruction). (i.code, i.exarg, i.extra)) ps.info.code.opcodes
shown (error e) = []
shown undefined = []
shown out_of_fuel = []

run1 : List (ℕ × ℕ × ℕ)
run1 = shown (
    parse_try_expr same 30 (
      start (tok tk_name 1) (
        tok b'+' 0
        ∷ tok tk_name 2
        ∷ tok b'*' 0
        ∷ tok tk_int 3
        ∷ tok b'-' 0
        ∷ tok tk_name 1
        ∷ tok tk_newline 0
        ∷ [])))

run2 : List (ℕ × ℕ × ℕ)
run2 = shown (
    parse_try_expr same 60 (
      start (tok tk_name 1) (
        tok b'(' 0
        ∷ tok tk_name 2
        ∷ tok b'=' 0
        ∷ tok tk_int 3
        ∷ tok b')' 0
        ∷ tok b'[' 0
        ∷ tok b':' 0
        ∷ tok b']' 0
        ∷ tok b'.' 0
        ∷ tok tk_name 9
        ∷ tok b',' 0
        ∷ tok b'[' 0
        ∷ tok tk_int 5
        ∷ tok b',' 0
        ∷ tok tk_int 6
        ∷ tok b']' 0
        ∷ tok tk_newline 0
        ∷ [])))
