-- ===== src/Tests/ParserTheorems.antt =====
-- The theorems of the parser and of the operators at concrete inputs.
use python_lite.Base.{
  ℕ, ◌+◌, ◌*◌, ◌≡◌, ◌≢◌, refl, Bool, [], ◌∷◌, ◌++◌, none, some, arith, true, false, ◌==◌, ==_iff,
  length, get_elem?, List, inr,
}
use python_lite.Lexer.Token.{tk_name, tk_int, tk_newline, tk_kw_or, tk_de_plus_eq}
use python_lite.Lexer.Operators.{spelling, name_codes}
use python_lite.Vm.Ops.{op_plus, get_op_name, token_to_op_val, token_de_to_op_val}
use python_lite.Vm.Names.{get_op_name-token}
use python_lite.Vm.Operand.{Objects, object, load_name}
use python_lite.Vm.Value.{Respects}
use python_lite.Vm.Codes.{Instruction, build_ins, bc_test, bc_ph_break, bc_ph_continue}
use python_lite.Vm.Except.{ExceptInfo, Context}
use python_lite.Parser.Emit.{loop_control_replace}
use python_lite.Parser.Loops.{Replaced, loop_control_replace-Replaced}
use python_lite.Parser.State.{
  ParserState, done, Const, none_obj, bool_obj, value, fraction, lambda_name, base_exception,
  params, code, Token,
}
use python_lite.Parser.Expr.{simple_op}
use python_lite.Parser.Grammar.{
  Tree, name, literal, binary, one, int, named, constant, termed, Sum, factor, chain, stop, more,
}
use python_lite.Parser.Levels.{bound}
use python_lite.Parser.Evaluation.{Evaluates, parse_try_expr-exec}
use python_lite.Tests.ParserRuns.{tok, start}

-- A number for each constant, but one for all lists of parameters.
abbrev rank : Const → ℕ
rank none_obj = 0
rank (bool_obj true) = 1
rank (bool_obj false) = 2
rank lambda_name = 3
rank base_exception = 4
rank (params l) = 5
rank (fraction a) = 3 * a + 6
rank (code a) = 3 * a + 7
rank (value a) = 3 * a + 8

abbrev same_rank : Const → Const → Bool
same_rank c d = rank c == rank d

same_rank-reflexive : (c : Const) → same_rank c c ≡ true
same_rank-reflexive c = (==_iff (rank c) (rank c)).1 refl

abbrev numbers : Objects ℕ ℕ
numbers = record {
  const_obj = rank;
  none_value = 0;
  locals = λ c. some (rank c);
  closure = none;
  globals = λ c. none;
  builtins = λ c. none;
  op_binary = λ op a b. object (op + a + b);
  op_unary = λ op a. some (op + a);
  name_error = rank;
  unsupported = λ op a b. op;
  bad_operand = λ op a. op;
}

numbers-Respects : Respects numbers same_rank
unfolding load_name
numbers-Respects = record {
  values = λ c d h. (==_iff (rank c) (rank d)).0 h;
  names = λ c d h. (let e = (==_iff (rank c) (rank d)).0 h in cc);
  errors = λ c d h. (==_iff (rank c) (rank d)).0 h;
  none_const = refl;
}

-- `x + 7` before a line end.
abbrev x_token : Token
x_token = tok tk_name 1

abbrev seven : Token
seven = tok tk_int 7

abbrev plus_token : Token
plus_token = tok b'+' 0

abbrev sum_tree : Tree
sum_tree = binary op_plus (name 1) (literal (value 7))

plus_op : simple_op 1 b'+' ≡ some op_plus
unfolding simple_op token_to_op_val
plus_op = refl

x-Sum : Sum 1 (name 1) (x_token ∷ [])
x-Sum = chain (omega arith) (factor (termed (named x_token refl))) stop

seven-Sum : Sum 1 (literal (value 7)) (seven ∷ [])
seven-Sum = chain (omega arith) (factor (termed (constant seven (int refl)))) stop

tree-Sum : Sum 9 sum_tree (x_token ∷ plus_token ∷ seven ∷ [])
tree-Sum =
    chain (omega arith)
      (chain (omega arith)
        (chain (omega arith)
          (chain (omega arith)
            (chain (omega arith)
              (chain (omega arith)
                (chain (omega arith)
                  (chain (omega arith) x-Sum (more (one plus_token plus_op) seven-Sum stop)) stop)
                stop)
              stop)
            stop)
          stop)
        stop)
      stop

newline_bound : bound tk_newline ≡ 11
unfolding bound
newline_bound = refl

parse_try_expr-exec_example :
    Evaluates numbers same_rank sum_tree
      (tok tk_newline 0)
      []
      (start x_token (plus_token ∷ seven ∷ tok tk_newline 0 ∷ []))
parse_try_expr-exec_example =
    parse_try_expr-exec numbers same_rank same_rank-reflexive numbers-Respects tree-Sum
      (tok tk_newline 0) [] (start x_token (plus_token ∷ seven ∷ tok tk_newline 0 ∷ []))
      (record { token = refl; rest = refl }) newline_bound refl refl

plus_eq_op : token_de_to_op_val tk_de_plus_eq ≢ 0
unfolding token_de_to_op_val
plus_eq_op = omega arith

get_op_name-token_example :
    (name_codes (get_op_name (token_to_op_val tk_kw_or)) ≡ spelling tk_kw_or)
    × (name_codes (get_op_name (token_de_to_op_val tk_de_plus_eq)) ++ b'=' ∷ []
        ≡ spelling tk_de_plus_eq)
get_op_name-token_example =
    get_op_name-token tk_kw_or tk_de_plus_eq (inr refl) (omega arith) plus_eq_op

-- The code of a loop with a `break` and a `continue`.
abbrev jumps : List Instruction
jumps = build_ins bc_test 0 0 ∷ build_ins bc_ph_break 0 1 ∷ build_ins bc_ph_continue 0 1 ∷ []

abbrev looping : ParserState
looping =
    let s = start x_token [] in
    record s { info = record s.info { code = record s.info.code { opcodes = jumps } } }

loop_control_replace-Replaced_example :
    (ps' : ParserState) × (loop_control_replace 0 looping ≡ done tt ps')
    × (length ps'.info.code.opcodes ≡ 3)
    × ((i : ℕ) (ins : Instruction)
        → get_elem? jumps i ≡ some ins
        → (ins' : Instruction) × (get_elem? ps'.info.code.opcodes i ≡ some ins')
          × Replaced 0 0 3 i ins ins')
loop_control_replace-Replaced_example = loop_control_replace-Replaced 0 looping (omega arith)

-- An error two calls below its handler, with another handler in the frame between.
abbrev handler : ExceptInfo
handler = record { typecode = 22; ip_catch = 5; frame = 100 }

abbrev raising : Context ℕ
raising = record {
  ip = 9;
  frames = 30 ∷ 20 ∷ 10 ∷ [];
  frames_at = 100;
  frames_max = 4;
  expt_stack = record { typecode = 23; ip_catch = 7; frame = 101 } ∷ handler ∷ [];
}

abbrev is_22 : ℕ → Bool
is_22 t = t == 22
