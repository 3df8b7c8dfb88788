-- ===== src/Parser/Simple.antt =====
-- `parse_simple_stmt` of parser.c.
use python_lite.Base.{ℕ, zero, suc, ◌+◌, Bool, ◌||◌, ◌==◌, if◌then◌else◌}
use python_lite.Lexer.Token.{
  tk_name, tk_newline, tk_kw_break, tk_kw_continue, tk_kw_pass, tk_kw_del, tk_kw_import,
  tk_kw_return, tk_kw_assert, tk_kw_raise, tk_de_plus_eq, tk_de_minus_eq, tk_de_mul_eq,
  tk_de_div_eq, tk_de_floordiv_eq, tk_de_mod_eq, tk_de_matmul_eq, tk_de_bitand_eq, tk_de_bitor_eq,
  tk_de_bitxor_eq, tk_de_rshift_eq, tk_de_lshift_eq, tk_de_pow_eq,
}
use python_lite.Vm.Codes.{
  bc_ph_break, bc_ph_continue, bc_import_name, bc_ret, bc_assert, bc_raise, bc_pop,
}
use python_lite.Vm.Ops.{token_de_to_op_val}
use python_lite.Parser.State.{
  Const, value, ParseError, out_of_fuel, invalid_syntax, break_outside_loop, continue_outside_loop,
  return_outside_function, M, ◌>>=◌, ◌>>◌, return, fail, get, peek, peek_obj, next, accept,
  lval_check_setup, lval_check_shutdown,
}
use python_lite.Parser.Emit.{write_ins, sload_const}
use python_lite.Parser.Containers.{parse_expr, no_tuple, tuple_off}
use python_lite.Parser.Assign.{parse_inplace_op, parse_value_assign, parse_del}

-- The tokens of the inner `switch`, behind '='.
unfoldable pub is_inplace : ℕ → Bool
is_inplace tk =
    tk == tk_de_plus_eq
    || (tk == tk_de_minus_eq
        || (tk == tk_de_mul_eq
            || (tk == tk_de_div_eq
                || (tk == tk_de_floordiv_eq
                    || (tk == tk_de_mod_eq
                        || (tk == tk_de_matmul_eq
                            || (tk == tk_de_bitand_eq
                                || (tk == tk_de_bitor_eq
                                    || (tk == tk_de_bitxor_eq
                                        || (tk == tk_de_rshift_eq
                                            || (tk == tk_de_lshift_eq
                                                || tk == tk_de_pow_eq)))))))))))

-- The cases of `break` and `continue`.
unfoldable pub placeholder : ℕ → ParseError → M (Unit {0})
unfolding next write_ins
placeholder code outside = do
  next
  ps ← get
  if ps.info.loop_depth == 0 then fail outside else write_ins code 0 ps.info.loop_depth

module _ (same : Const → Const → Bool) (try_expr : M Bool) where
  -- The names of `import a.b`; `num` are read.
  unfoldable pub import_loop : ℕ → ℕ → M ℕ
  unfolding next sload_const
  import_loop zero num ps = out_of_fuel
  import_loop (suc fuel) num ps =
      let more : M ℕ = λ ps'. import_loop fuel (num + 1) ps' in
      (do
        tk ← peek
        obj ← peek_obj
        if tk == tk_name
            then (do
              sload_const same (value obj)
              next
              tk' ← peek
              if tk' == b'.' then (next >> more) else return (num + 1))
            else fail invalid_syntax)
        ps

  -- `return` and `raise`: an instruction that says whether an expression is there.
  unfoldable pub with_value : ℕ → M (Unit {0})
  unfolding next write_ins
  with_value code = do next; ok ← try_expr; write_ins code 0 (if ok then 1 else 0)

  unfoldable pub return_stmt : M (Unit {0})
  unfolding with_value
  return_stmt = do
    ps ← get
    if ps.disable_return_parse then fail return_outside_function else with_value bc_ret

  unfoldable pub assert_stmt : M (Unit {0})
  unfolding next parse_expr write_ins
  assert_stmt = do
    old ← tuple_off
    next
    parse_expr try_expr
    tk ← peek
    if tk == b','
        then (do next; parse_expr try_expr; write_ins bc_assert 0 1)
        else write_ins bc_assert 0 0
    no_tuple old

  -- The `default` of the `switch`, without the line's end.
  unfoldable pub expr_stmt : ℕ → M (Unit {0})
  unfolding lval_check_setup parse_expr parse_value_assign lval_check_shutdown is_inplace
      parse_inplace_op token_de_to_op_val write_ins
  expr_stmt fuel = do
    lval_check_setup
    parse_expr try_expr
    tk ← peek
    if tk == b'=' then (do parse_value_assign try_expr fuel; lval_check_shutdown) else (do
      if is_inplace tk then parse_inplace_op try_expr (token_de_to_op_val tk) else return tt
      lval_check_shutdown
      write_ins bc_pop 0 0)

  unfoldable pub simple_switch : ℕ → ℕ → M (Unit {0})
  unfolding placeholder next parse_del import_loop write_ins return_stmt assert_stmt with_value
      expr_stmt
  simple_switch fuel tk =
      if tk == tk_kw_break
      then placeholder bc_ph_break break_outside_loop
      else if tk == tk_kw_continue
      then placeholder bc_ph_continue continue_outside_loop
      else if tk == tk_kw_pass
      then next
      else if tk == tk_kw_del
      then parse_del try_expr same fuel
      else if tk == tk_kw_import
      then (do next; num ← import_loop fuel 0; write_ins bc_import_name 0 num)
      else if tk == tk_kw_return
      then return_stmt
      else if tk == tk_kw_assert
      then assert_stmt
      else if tk == tk_kw_raise
      then with_value bc_raise
      else expr_stmt fuel

  unfoldable pub parse_simple_stmt : ℕ → M (Unit {0})
  unfolding simple_switch accept
  parse_simple_stmt fuel = do tk ← peek; simple_switch fuel tk; accept tk_newline
