-- ===== src/Parser/State.antt =====
-- The state of the parser, what a parsing function returns, and `next`, `ACCEPT` and the check of
-- left values.
use python_lite.Base.{
  ℕ, ◌+◌, Bool, true, false, ◌&&◌, List, [], ◌∷◌, Option, none, some, ◌==◌, if◌then◌else◌, length,
}
use python_lite.Lexer.Token.{tk_end}
use python_lite.Vm.Codes.{Instruction}

-- The objects that a parse puts among the constants. `value` is the object of a token; `fraction`
-- is the float that `.` makes of the integer behind it; `code` is the place of a code object among
-- the finished ones.
pub data Const : Type 0 where
  none_obj : Const
  bool_obj : Bool → Const
  value : ℕ → Const
  fraction : ℕ → Const
  lambda_name : Const
  base_exception : Const
  params : List ℕ → Const
  code : ℕ → Const

-- `Token`, with the line that the lexer has reached at it.
pub record Token : Type 0 where
  pub val : ℕ
  pub obj : ℕ
  pub linenumber : ℕ

pub record CodeObject : Type 0 where
  pub const_val : List Const
  pub closure : List Const
  pub opcodes : List Instruction
  pub lnotab : List ℕ

-- `ParserInfo`, whose `prev` is the rest of a list of them.
pub record ParserInfo : Type 0 where
  pub loop_depth : ℕ
  pub code : CodeObject

-- `lval_check` of `ParserState`
pub record LvalCheck : Type 0 where
  pub enable : Bool
  pub can_be_left_val : Bool
  pub startcode : ℕ
  pub expr_level : ℕ
  pub bc_cache : List Instruction

-- `rest` is what `pylt_lex_next` will return: a token, or `none` for an error. `finished` are the
-- code objects of the functions that are parsed. `prev` are the infos below `info`.
pub record ParserState : Type 0 where
  pub token : Token
  pub rest : List (Option Token)
  pub info : ParserInfo
  pub prev : List ParserInfo
  pub finished : List CodeObject
  pub lval_check : LvalCheck
  pub disable_op_in_parse : Bool
  pub disable_expr_tuple_parse : Bool
  pub disable_return_parse : Bool
  pub token_count : ℕ

-- The codes of `error`; `lexical` is a code that the lexer returned.
pub data ParseError : Type 0 where
  lexical : ParseError
  invalid_syntax : ParseError
  break_outside_loop : ParseError
  continue_outside_loop : ParseError
  cant_assign_to_literal : ParseError
  keyword_cant_be_an_expr : ParseError
  return_outside_function : ParseError
  except_must_be_last : ParseError
  try_expected_finally : ParseError
  non_default_arg_follow_default_arg : ParseError
  different_unpack_sequences_size : ParseError
  not_enough_values_to_unpack : ParseError

-- A function of the parser returns, or `error` ends the process, or a value that was never set is
-- used. `out_of_fuel` is none of these: the call needs more fuel.
pub data Parse {ℓ} (A : Type ℓ) : Type ℓ where
  done : A → ParserState → Parse A
  error : ParseError → Parse A
  undefined : Parse A
  out_of_fuel : Parse A

abbrev pub M {ℓ} : Type ℓ → Type ℓ
M A = ParserState → Parse A

infixl 5 ◌>>=◌ ◌>>◌
abbrev pub ◌>>=◌ {ℓ κ} : {A : Type ℓ} {B : Type κ} → M A → (A → M B) → M B
◌>>=◌ m f ps = elim (m ps) [
  | done a ps' ↦ f a ps'
  | error e ↦ error e
  | undefined ↦ undefined
  | out_of_fuel ↦ out_of_fuel
]

abbrev pub ◌>>◌ {ℓ κ} : {A : Type ℓ} {B : Type κ} → M A → M B → M B
m >> k = m >>= λ _. k

abbrev pub return {ℓ} : {A : Type ℓ} → A → M A
return a ps = done a ps

abbrev pub fail {ℓ} : {A : Type ℓ} → ParseError → M A
fail e ps = error e

abbrev pub get : M ParserState
get ps = done ps ps

abbrev pub modify : (ParserState → ParserState) → M (Unit {0})
modify f ps = done tt (f ps)

-- `tk->val`
abbrev pub peek : M ℕ
peek ps = done ps.token.val ps

abbrev pub peek_obj : M ℕ
peek_obj ps = done ps.token.obj ps

abbrev pub advance : ParserState → List (Option Token) → Parse (Unit {0})
advance ps [] =
    done tt
      (record ps { token = record ps.token { val = tk_end }; token_count = ps.token_count + 1 })
advance ps (none ∷ rest) = error lexical
advance ps (some t ∷ rest) =
    done tt (record ps { token = t; rest = rest; token_count = ps.token_count + 1 })

-- Behind the end of the file the model stays at the end, where `pylt_lex_next` returns a line end and
-- the end by turns.
unfoldable pub next : M (Unit {0})
next ps = advance ps ps.rest

-- `ACCEPT`
unfoldable pub accept : ℕ → M (Unit {0})
accept token = do tk ← peek; if tk == token then next else fail invalid_syntax

unfoldable pub lval_check_setup : M (Unit {0})
lval_check_setup = modify λ ps. record ps {
  lval_check = record ps.lval_check {
    enable = true;
    can_be_left_val = true;
    startcode = length ps.info.code.opcodes;
  };
}

unfoldable pub lval_check_shutdown : M (Unit {0})
lval_check_shutdown =
    modify λ ps. record ps { lval_check = record ps.lval_check { enable = false } }

unfoldable pub lval_check_valid : ParserState → Bool
lval_check_valid ps = ps.lval_check.enable && ps.lval_check.expr_level == 1

unfoldable pub lval_check_judge : Bool → M Bool
unfolding lval_check_valid
lval_check_judge val ps =
    if lval_check_valid ps
    then done true (record ps { lval_check = record ps.lval_check { can_be_left_val = val } })
    else done false ps
