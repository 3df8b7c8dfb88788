-- ===== src/Parser/Branch.antt =====
-- The case of `if` of `parse_try_compound_stmt` of parser.c.
use python_lite.Base.{ℕ, zero, suc, ◌+◌, ◌-◌, Bool, true, false, ◌==◌, if◌then◌else◌}
use python_lite.Lexer.Token.{tk_newline, tk_kw_elif, tk_kw_else}
use python_lite.Vm.Codes.{offset, bc_test, bc_jmp}
use python_lite.Parser.State.{undefined, out_of_fuel, M, ◌>>=◌, ◌>>◌, return, peek, next, accept}
use python_lite.Parser.Emit.{
  write_ins, opcode_size, opcode_get, opcode_change, opcode_set_extra, opcode_incr_extra,
}
use python_lite.Parser.Containers.{parse_expr}

-- The loop that changes every jump: `pos` is behind the instruction of the chain, whose `extra`
-- leads to the next one.
unfoldable pub patch_loop : ℕ → ℕ → ℕ → M (Unit {0})
unfolding opcode_get opcode_change offset
patch_loop zero final_pos pos ps = out_of_fuel
patch_loop (suc fuel) final_pos pos ps =
    let again : ℕ → M (Unit {0}) = λ p ps'. patch_loop fuel final_pos p ps' in
    let round : M (Unit {0}) = do
      ins ← opcode_get (pos - 1)
      opcode_set_extra (pos - 1) (final_pos - pos)
      again (offset pos ins.extra)
    in (if pos == final_pos then return tt else if pos == 0 then (λ ps'. undefined) else round) ps

-- What stands behind ':', over `parse_block` and `parse_simple_stmt`.
unfoldable pub suite : M (Unit {0}) → M (Unit {0}) → M (Unit {0})
unfolding next
suite block simple = do tk ← peek; if tk == tk_newline then (next >> block) else simple

-- `parse_expr`, `parse_block` and `parse_simple_stmt` are given.
module _ (try_expr : M Bool) (block simple : M (Unit {0})) where
  -- A condition with its block; the position behind the test, whose `extra` leads behind the block.
  unfoldable pub test_block : M ℕ
  unfolding parse_expr accept write_ins suite
  test_block = do
    parse_expr try_expr
    accept b':'
    write_ins bc_test 0 0
    tmp ← opcode_size
    suite block simple
    return tmp

  -- A round of the loop over `elif`, behind the test at `tmp`.
  unfoldable pub elif_step : ℕ → M ℕ
  unfolding next opcode_change write_ins test_block
  elif_step tmp = do
    next
    opcode_incr_extra (tmp - 1)
    write_ins bc_jmp 0 0
    tmp2 ← opcode_size
    tmp' ← test_block
    size ← opcode_size
    opcode_set_extra (tmp2 - 1) (size - tmp2 + 1)
    opcode_set_extra (tmp' - 1) (size - tmp')
    return tmp'

  -- The position behind the last test, and whether there was an `elif`.
  unfoldable pub elif_loop : ℕ → ℕ → Bool → M (ℕ × Bool)
  unfolding elif_step
  elif_loop zero tmp some_elif ps = out_of_fuel
  elif_loop (suc fuel) tmp some_elif ps =
      let again : ℕ → M (ℕ × Bool) = λ t ps'. elif_loop fuel t true ps' in
      (do
        tk ← peek
        if tk == tk_kw_elif then (do t ← elif_step tmp; again t) else return (tmp, some_elif))
        ps

  unfoldable pub else_part : ℕ → Bool → M (Unit {0})
  unfolding next accept opcode_change write_ins suite
  else_part tmp some_elif = do
    tk ← peek
    if tk == tk_kw_else
        then (do
          next
          accept b':'
          opcode_incr_extra (tmp - 1)
          write_ins bc_jmp 0 0
          tmp' ← opcode_size
          suite block simple
          size ← opcode_size
          opcode_set_extra (tmp' - 1) (size - tmp'))
        else if some_elif
        then (do size ← opcode_size; opcode_set_extra (tmp - 1) (size - tmp))
        else return tt

  unfoldable pub if_stmt : ℕ → M (Unit {0})
  unfolding next test_block opcode_change elif_loop else_part opcode_get patch_loop offset
  if_stmt fuel = do
    next
    tmp3 ← test_block
    size ← opcode_size
    opcode_set_extra (tmp3 - 1) (size - tmp3)
    (tmp, some_elif) ← elif_loop fuel tmp3 false
    else_part tmp some_elif
    final_pos ← opcode_size
    ins ← opcode_get (tmp3 - 1)
    patch_loop (final_pos + 1) final_pos (offset tmp3 ins.extra)
