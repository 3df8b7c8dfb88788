-- ===== src/Vm/Value.antt =====
-- The value of a tree.
use python_lite.Base.{ℕ, ◌≡◌, Bool, true, Option, none, some}
use python_lite.Vm.Ops.{op_not, op_pow}
use python_lite.Vm.Operand.{Applied, object, null, raises, Objects, is_binary, load_name}
use python_lite.Parser.State.{Const, none_obj, value}
use python_lite.Parser.Grammar.{Tree, name, literal, unary, negation, power, binary, unary_op}

-- The value of an expression, or the error of the first operation that fails.
pub data EvalResult (V E : Type 0) : Type 0 where
  result : V → EvalResult V E
  fails : E → EvalResult V E

-- The operators of the tree take two operands.
abbrev pub Binaries : Tree → Type 0
Binaries (name x) = Unit
Binaries (literal c) = Unit
Binaries (unary u a) = Binaries a
Binaries (negation a) = Binaries a
Binaries (power a b) = Binaries a × Binaries b
Binaries (binary op a b) = (is_binary op ≡ true) × Binaries a × Binaries b

module _ {V E : Type 0} (o : Objects V E) where
  abbrev pub name_value : Const → Option V → EvalResult V E
  name_value c (some v) = result v
  name_value c none = fails (o.name_error c)

  abbrev pub of_one : ℕ → V → Option V → EvalResult V E
  of_one op v (some w) = result w
  of_one op v none = fails (o.bad_operand op v)

  abbrev pub of_applied : ℕ → V → V → Applied V E → EvalResult V E
  of_applied op v w (object x) = result x
  of_applied op v w null = fails (o.unsupported op v w)
  of_applied op v w (raises e) = fails e

  abbrev pub apply_one : ℕ → EvalResult V E → EvalResult V E
  apply_one op (result v) = of_one op v (o.op_unary op v)
  apply_one op (fails e) = fails e

  abbrev pub apply_two : ℕ → EvalResult V E → EvalResult V E → EvalResult V E
  apply_two op (fails e) r = fails e
  apply_two op (result v) (fails e) = fails e
  apply_two op (result v) (result w) = of_applied op v w (o.op_binary op v w)

  -- Operands from the left, then the operator; `and` and `or` are operators like the others.
  unfoldable pub eval : Tree → EvalResult V E
  eval (name x) = name_value (value x) (load_name o (value x))
  eval (literal c) = result (o.const_obj c)
  eval (unary u a) = apply_one (unary_op u) (eval a)
  eval (negation a) = apply_one op_not (eval a)
  eval (power a b) = apply_two op_pow (eval a) (eval b)
  eval (binary op a b) = apply_two op (eval a) (eval b)

  -- Constants that are the same stand for one value and one name, and None for the constant None.
  pub record Respects (same : Const → Const → Bool) : Type 0 where
    pub values : (c d : Const) → same c d ≡ true → o.const_obj c ≡ o.const_obj d
    pub names : (c d : Const) → same c d ≡ true → load_name o c ≡ load_name o d
    pub errors : (c d : Const) → same c d ≡ true → o.name_error c ≡ o.name_error d
    pub none_const : o.none_value ≡ o.const_obj none_obj
