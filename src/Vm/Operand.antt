-- ===== src/Vm/Operand.antt =====
-- `pylt_vm_run` on the instructions of which the code of operators is made: `BC_LOADNONE`,
-- `BC_LOADCONST`, `BC_LOAD_VAL` and `BC_OPERATOR`. The values, the scopes and the operations of
-- objects are parameters.
use python_lite.Base.{
  ℕ, ◌+◌, ◌-◌, Bool, true, false, ◌&&◌, ◌||◌, List, [], ◌∷◌, Option, none, some, ◌==◌, ltb, leb,
  if◌then◌else◌, get_elem?, length,
}
use python_lite.Vm.Ops.{op_not, op_pos, op_neg, op_bitnot, op_pow}
use python_lite.Vm.Codes.{
  Instruction, bc_loadnone, bc_loadconst, bc_load_val, bc_load_val_, bc_operator,
}
use python_lite.Parser.State.{Const}

-- What `pylt_obj_op_binary` does: it returns an object or NULL, or sets `I->error`.
pub data Applied (V E : Type 0) : Type 0 where
  object : V → Applied V E
  null : Applied V E
  raises : E → Applied V E

-- `pylt_obj_op_unary` is asked for an object only: an error that it sets with NULL is replaced.
pub record Objects (V E : Type 0) : Type 0 where
  pub const_obj : Const → V
  pub none_value : V
  pub locals : Const → Option V
  pub closure : Option (Const → Option V)
  pub globals : Const → Option V
  pub builtins : Const → Option V
  pub op_binary : ℕ → V → V → Applied V E
  pub op_unary : ℕ → V → Option V
  pub name_error : Const → E
  pub unsupported : ℕ → V → V → E
  pub bad_operand : ℕ → V → E

-- The stack, last pushed first, and the error that is set, if any. `broken` is a read outside the
-- constants or the stack, or an instruction that is none of these.
pub data Stack (V E : Type 0) : Type 0 where
  running : List V → Stack V E
  raised : E → List V → Stack V E
  broken : Stack V E

-- The operators of the first `case` of `BC_OPERATOR`.
unfoldable pub is_binary : ℕ → Bool
is_binary op =
    leb op op_pow
    && (if op == op_not || (op == op_pos || (op == op_neg || op == op_bitnot)) then false else true)

-- `const_obj`, by `pylt_obj_list_getitem` with an index of 16 bits and a sign.
unfoldable pub const_at : List Const → ℕ → Option Const
const_at consts extra =
    if ltb extra 32768
    then get_elem? consts extra
    else if leb (65536 - extra) (length consts)
    then get_elem? consts (length consts + extra - 65536)
    else none

module _ {V E : Type 0} (o : Objects V E) where
  abbrev pub or_else : Option V → Option V → Option V
  or_else (some v) rest = some v
  or_else none rest = rest

  abbrev in_closure : Option (Const → Option V) → Const → Option V
  in_closure none name = none
  in_closure (some scope) name = scope name

  -- The search of `BC_LOAD_VAL`: locals, the closure of the function, globals, built-in names.
  unfoldable pub load_name : Const → Option V
  load_name name =
      or_else (o.locals name)
        (or_else (in_closure o.closure name) (or_else (o.globals name) (o.builtins name)))

  abbrev pub loaded : Const → List V → Option V → Stack V E
  loaded name stack none = raised (o.name_error name) stack
  loaded name stack (some v) = running (v ∷ stack)

  abbrev pub applied : ℕ → V → V → List V → Applied V E → Stack V E
  applied op a b stack (object v) = running (v ∷ stack)
  applied op a b stack null = raised (o.unsupported op a b) stack
  applied op a b stack (raises e) = raised e stack

  abbrev pub applied_one : ℕ → V → List V → Option V → Stack V E
  applied_one op a stack (some v) = running (v ∷ stack)
  applied_one op a stack none = raised (o.bad_operand op a) stack

  abbrev binary_op : ℕ → List V → Stack V E
  binary_op op (b ∷ (a ∷ stack)) = applied op a b stack (o.op_binary op a b)
  binary_op op (b ∷ []) = broken
  binary_op op [] = broken

  abbrev unary_op : ℕ → List V → Stack V E
  unary_op op (a ∷ stack) = applied_one op a stack (o.op_unary op a)
  unary_op op [] = broken

  -- `BC_OPERATOR`
  unfoldable pub operator : ℕ → List V → Stack V E
  unfolding is_binary
  operator op stack = if is_binary op then binary_op op stack else unary_op op stack

  abbrev pub load_const : List V → Option Const → Stack V E
  load_const stack none = broken
  load_const stack (some c) = running (o.const_obj c ∷ stack)

  abbrev pub load_val : List V → Option Const → Stack V E
  load_val stack none = broken
  load_val stack (some name) = loaded name stack (load_name name)

  -- An instruction, with no error set.
  unfoldable pub step : List Const → Instruction → List V → Stack V E
  unfolding operator const_at load_name
  step consts ins stack =
      if ins.code == bc_loadnone
      then running (o.none_value ∷ stack)
      else if ins.code == bc_loadconst
      then load_const stack (const_at consts ins.extra)
      else if ins.code == bc_load_val || ins.code == bc_load_val_
      then load_val stack (const_at consts ins.extra)
      else if ins.code == bc_operator
      then operator ins.extra stack
      else broken

  -- The loop, up to the end of the code or to the instruction that sets an error: at the next one
  -- `pylt_vm_except_check` finds it.
  unfoldable pub exec : List Const → List Instruction → Stack V E → Stack V E
  unfolding step
  exec consts [] (running stack) = running stack
  exec consts (ins ∷ code) (running stack) = exec consts code (step consts ins stack)
  exec consts code (raised e stack) = raised e stack
  exec consts code broken = broken
