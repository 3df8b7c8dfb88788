-- ===== src/Parser/Params.antt =====
-- `parse_func_params` and `parse_lambda`, over the function that tries an expression.
use python_lite.Base.{
  ℕ, zero, suc, ◌+◌, Bool, true, false, not, ◌&&◌, ◌||◌, List, [], ◌∷◌, ◌++◌, Option, none, some,
  ltb, ◌==◌, if◌then◌else◌,
}
use python_lite.Lexer.Token.{tk_name, tk_op_pow, tk_kw_lambda}
use python_lite.Vm.Codes.{bc_ret, bc_new_obj, bc_loadnone, type_dict, type_function}
use python_lite.Parser.State.{
  Const, none_obj, value, lambda_name, params, out_of_fuel, invalid_syntax,
  non_default_arg_follow_default_arg, M, ◌>>=◌, ◌>>◌, return, fail, get, modify, peek, peek_obj,
  next, accept,
}
use python_lite.Parser.Emit.{write_ins, sload_const, func_push, func_pop, func_scope_check}
use python_lite.Parser.Containers.{parse_expr, parse_expr_without_tuple_parse}

-- The variables of `parse_func_params`. It keeps the name of `**kwargs` to itself.
pub record Params : Type 0 where
  pub names : List ℕ
  pub args_name : Option ℕ
  pub defarg_count : ℕ

abbrev pub is_set : Option ℕ → Bool
is_set none = false
is_set (some x) = true

-- What a round of the loop returns: whether the loop goes on.
abbrev pub Round : Type 0
Round = Bool × Params

abbrev pub return_params : Bool → M (Unit {0})
return_params b = modify λ ps. record ps { disable_return_parse = b }

-- A name or None.
abbrev pub name_const : Option ℕ → Const
name_const none = none_obj
name_const (some x) = value x

module _ (same : Const → Const → Bool) (try_expr : M Bool) where
  abbrev pub missing_default : Params → Bool
  missing_default p = ltb 0 p.defarg_count && not (is_set p.args_name)

  -- A parameter `name`, which is in the list already.
  unfoldable pub name_param : ℕ → Params → M Round
  unfolding next sload_const parse_expr_without_tuple_parse
  name_param argname p = do
    next
    tk ← peek
    if tk == b'='
        then (do
          next
          sload_const same (value argname)
          parse_expr_without_tuple_parse try_expr
          let p' = record p { defarg_count = p.defarg_count + 1 }
          tk' ← peek
          if tk' == b',' then (do next; return (true, p')) else return (false, p'))
        else if tk == b','
        then (if missing_default p
            then fail non_default_arg_follow_default_arg
            else (do next; return (true, p)))
        else if (tk == b')' || tk == b':') && missing_default p
        then fail non_default_arg_follow_default_arg
        else return (false, p)

  -- `*name`
  unfoldable pub star_param : Params → M Round
  unfolding next
  star_param p = do
    next
    tk ← peek
    obj ← peek_obj
    if not (tk == tk_name) || is_set p.args_name then fail invalid_syntax else (do
      next
      let p' = record p { names = p.names ++ obj ∷ []; args_name = some obj }
      tk' ← peek
      if tk' == b',' then (do next; return (true, p')) else return (false, p'))

  -- `**name`
  unfoldable pub power_param : Params → M Round
  unfolding next
  power_param p = do
    next
    tk ← peek
    obj ← peek_obj
    if tk == tk_name
        then (do next; return (false, record p { names = p.names ++ obj ∷ [] }))
        else fail invalid_syntax

  unfoldable pub param_step : Params → M Round
  unfolding name_param star_param power_param
  param_step p = do
    tk ← peek
    obj ← peek_obj
    if tk == tk_name
        then name_param obj (record p { names = p.names ++ obj ∷ [] })
        else if tk == b'*'
        then star_param p
        else if tk == tk_op_pow
        then power_param p
        else return (false, p)

  unfoldable pub params_loop : ℕ → Params → M Params
  unfolding param_step next
  params_loop zero p ps = out_of_fuel
  params_loop (suc fuel) p ps =
      let again : Params → M Params = λ p' ps'. params_loop fuel p' ps' in
      (do (more, p') ← param_step p; if more then again p' else return p') ps

  unfoldable pub parse_func_params : ℕ → M Params
  unfolding params_loop next
  parse_func_params fuel = do
    p ← params_loop fuel (record { names = []; args_name = none; defarg_count = 0 })
    tk ← peek
    if tk == b',' then (do next; return p) else return p

  -- The body of a function between `func_push` and `func_pop`, in which `return` is allowed or not;
  -- it gives the code object.
  unfoldable pub function_body : Bool → M (Unit {0}) → List ℕ → M Const
  unfolding func_push func_scope_check func_pop
  function_body disable_return body names = do
    ps ← get
    return_params disable_return
    func_push
    body
    func_scope_check same names
    obj ← func_pop
    return_params ps.disable_return_parse
    return obj

  -- The instructions that make a function, after those of the default values.
  unfoldable pub make_function : Const → Const → Params → M (Unit {0})
  unfolding sload_const write_ins
  make_function name obj p = do
    sload_const same name
    sload_const same obj
    sload_const same (params p.names)
    sload_const same (name_const p.args_name)
    sload_const same none_obj
    write_ins bc_new_obj type_function 0

  unfoldable pub lambda_params : ℕ → M Params
  unfolding next accept parse_func_params
  lambda_params fuel = do
    tk ← peek
    if tk == b':'
        then (do next; return (record { names = []; args_name = none; defarg_count = 0 }))
        else (do p ← parse_func_params fuel; accept b':'; return p)

  unfoldable pub parse_lambda : ℕ → M (Unit {0})
  unfolding accept lambda_params function_body parse_expr write_ins make_function
  parse_lambda fuel = do
    accept tk_kw_lambda
    p ← lambda_params fuel
    obj ← function_body false (do parse_expr try_expr; write_ins bc_ret 0 1) p.names
    if p.defarg_count == 0
        then write_ins bc_loadnone 0 0
        else write_ins bc_new_obj type_dict p.defarg_count
    make_function lambda_name obj p
