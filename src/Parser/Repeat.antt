-- ===== src/Parser/Repeat.antt =====
-- The cases of `while` and `for` of `parse_try_compound_stmt` of parser.c.
use python_lite.Base.{ℕ, ◌+◌, ◌-◌, Bool, true, false, ◌==◌, if◌then◌else◌}
use python_lite.Lexer.Token.{tk_kw_in}
use python_lite.Vm.Codes.{
  bc_test, bc_jmp_back, bc_new_obj, bc_foriter, bc_unpack_seq, bc_popn, bc_pop, bc_del_force,
  type_iter,
}
use python_lite.Parser.State.{M, ◌>>=◌, ◌>>◌, return, modify, next, accept, lval_check_setup}
use python_lite.Parser.Emit.{
  write_ins, opcode_size, opcode_change, opcode_set_extra, opcode_popn, lval_check_cache_push,
  lval_check_cache_pop, value_assign_fix, loop_control_replace,
}
use python_lite.Parser.Containers.{parse_expr}
use python_lite.Parser.Branch.{suite}

abbrev pub depth_up : M (Unit {0})
depth_up = modify λ ps. record ps { info = record ps.info { loop_depth = ps.info.loop_depth + 1 } }

abbrev pub depth_down : M (Unit {0})
depth_down =
    modify λ ps. record ps { info = record ps.info { loop_depth = ps.info.loop_depth - 1 } }

abbrev op_in_off : Bool → M (Unit {0})
op_in_off b = modify λ ps. record ps { disable_op_in_parse = b }

-- The body of a loop, whose first instruction stands at `start`.
unfoldable pub loop_body : M (Unit {0}) → M (Unit {0}) → ℕ → M (Unit {0})
unfolding suite loop_control_replace
loop_body block simple start = do
  depth_up
  suite block simple
  depth_down
  loop_control_replace start

module _ (try_expr : M Bool) (block simple : M (Unit {0})) where
  unfoldable pub while_stmt : M (Unit {0})
  unfolding next parse_expr accept write_ins loop_body opcode_change
  while_stmt = do
    next
    tmp ← opcode_size
    parse_expr try_expr
    accept b':'
    tmp2 ← opcode_size
    write_ins bc_test 0 0
    loop_body block simple tmp2
    size ← opcode_size
    write_ins bc_jmp_back 0 (size - tmp + 1)
    size' ← opcode_size
    opcode_set_extra tmp2 (size' - tmp2 - 1)

  -- The left value between `for` and `in`, whose code is kept in the cache.
  unfoldable pub for_target : M (Unit {0})
  unfolding lval_check_setup parse_expr lval_check_cache_push opcode_popn
  for_target = do
    lval_check_setup
    op_in_off true
    parse_expr try_expr
    op_in_off false
    size ← lval_check_cache_push
    opcode_popn size

  unfoldable pub for_stmt : M (Unit {0})
  unfolding next for_target accept parse_expr write_ins value_assign_fix lval_check_cache_pop
      loop_body opcode_change
  for_stmt = do
    next
    for_target
    accept tk_kw_in
    parse_expr try_expr
    accept b':'
    write_ins bc_new_obj type_iter 0
    tmp ← opcode_size
    write_ins bc_foriter 0 0
    seqsize ← value_assign_fix
    if seqsize == 0 then return tt else write_ins bc_unpack_seq 0 seqsize
    lval_check_cache_pop
    write_ins (if seqsize == 0 then bc_pop else bc_popn) 0 seqsize
    loop_body block simple tmp
    size ← opcode_size
    opcode_set_extra tmp (size - tmp)
    write_ins bc_jmp_back 0 (size - tmp + 1)
    write_ins bc_pop 0 0
    write_ins bc_del_force 0 0
