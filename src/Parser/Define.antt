-- ===== src/Parser/Define.antt =====
-- `parse_func` and `parse_class` of parser.c.
use python_lite.Base.{ℕ, Bool, true, false, [], Option, none, some, ◌==◌, if◌then◌else◌}
use python_lite.Lexer.Token.{tk_name, tk_kw_def, tk_kw_class}
use python_lite.Vm.Codes.{
  bc_ret, bc_new_obj, bc_set_val, bc_pop, bc_loadlocals, bc_loadnone, bc_call, bc_load_val,
  type_dict, type_type,
}
use python_lite.Parser.State.{
  Const, none_obj, value, invalid_syntax, M, ◌>>=◌, ◌>>◌, return, fail, peek, peek_obj, next,
  accept,
}
use python_lite.Parser.Emit.{write_ins, store_const, sload_const}
use python_lite.Parser.Params.{parse_func_params, function_body, make_function}
use python_lite.Parser.Branch.{suite}

-- A name, which is read.
unfoldable pub accept_name : M ℕ
unfolding next
accept_name = do
  tk ← peek
  obj ← peek_obj
  if tk == tk_name then (do next; return obj) else fail invalid_syntax

-- The name of the base class, if there is one.
unfoldable pub base_class : M (Option ℕ)
unfolding next accept
base_class = do
  tk ← peek
  if tk == b'('
      then (do
        next
        tk' ← peek
        obj ← peek_obj
        base ← (if tk' == tk_name then (do next; return (some obj)) else return none)
        accept b')'
        return base)
      else return none

module _ (same : Const → Const → Bool) (try_expr : M Bool) (block simple : M (Unit {0})) where
  -- The value on the stack is stored under the name and taken off.
  unfoldable pub store_name : ℕ → M (Unit {0})
  unfolding store_const write_ins
  store_name name = do
    i ← store_const same (value name)
    write_ins bc_set_val 0 i
    write_ins bc_pop 0 0

  unfoldable pub parse_func : ℕ → M (Unit {0})
  unfolding accept accept_name parse_func_params function_body suite write_ins make_function
      store_name
  parse_func fuel = do
    accept tk_kw_def
    func_name ← accept_name
    accept b'('
    p ← parse_func_params same try_expr fuel
    accept b')'
    accept b':'
    obj ← function_body same try_expr false (suite block simple >> write_ins bc_ret 0 0) p.names
    if p.defarg_count == 0
        then write_ins bc_loadnone 0 0
        else write_ins bc_new_obj type_dict p.defarg_count
    make_function same try_expr (value func_name) obj p
    store_name func_name

  abbrev load_base : Option ℕ → M (Unit {0})
  unfolding store_const write_ins sload_const
  load_base none = sload_const same none_obj
  load_base (some base) = do i ← store_const same (value base); write_ins bc_load_val 0 i

  -- The body of a class is a function that returns its variables.
  abbrev class_code : M (Unit {0})
  unfolding suite write_ins
  class_code = do suite block simple; write_ins bc_loadlocals 0 0; write_ins bc_ret 0 1

  unfoldable pub parse_class : M (Unit {0})
  unfolding accept accept_name base_class function_body class_code sload_const make_function
      write_ins load_base store_name
  parse_class = do
    accept tk_kw_class
    class_name ← accept_name
    base_class_name ← base_class
    accept b':'
    obj ← function_body same try_expr true class_code []
    sload_const same none_obj
    make_function same try_expr (value class_name) obj
        (record { names = []; args_name = none; defarg_count = 0 })
    write_ins bc_call 0 0
    load_base base_class_name
    sload_const same (value class_name)
    write_ins bc_new_obj type_type 0
    store_name class_name
