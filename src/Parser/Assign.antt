-- ===== src/Parser/Assign.antt =====
-- Statements that change what a left value names: `parse_inplace_op`, `parse_value_assign`,
-- `parse_try_del_item` and `parse_del` of parser.c.
use python_lite.Base.{
  ℕ, zero, suc, ◌-◌, Bool, true, false, not, ◌&&◌, ◌||◌, ltb, ◌==◌, if◌then◌else◌,
}
use python_lite.Lexer.Token.{tk_name, tk_newline}
use python_lite.Vm.Codes.{
  Instruction, bc_operator, bc_load_val, bc_load_val_, bc_new_obj, bc_unpack_seq, bc_pop, bc_popn,
  bc_get_attr, bc_get_attr_, bc_get_item, bc_get_item_, bc_get_slice, bc_get_slice_, bc_del_name,
  bc_del_attr, bc_del_item, bc_del_slice, type_list, type_tuple,
}
use python_lite.Parser.State.{
  Const, ParseError, out_of_fuel, invalid_syntax, cant_assign_to_literal,
  different_unpack_sequences_size, not_enough_values_to_unpack, M, ◌>>=◌, ◌>>◌, return, fail, get,
  peek, next, accept,
}
use python_lite.Parser.Emit.{
  write_ins, opcode_size, opcode_top, opcode_change_top, opcode_popn, lval_check_cache_push,
  lval_check_cache_pop, value_assign_fix,
}
use python_lite.Parser.Containers.{parse_expr}
use python_lite.Parser.Suffix.{parse_try_suffix}
use python_lite.Parser.Expr.{name_t}

-- `if (wrong) error(ps, code);`
abbrev refuse : Bool → ParseError → M (Unit {0})
refuse true e = fail e
refuse false e = return tt

module _ (try_expr : M Bool) where
  abbrev check_left : M (Unit {0})
  check_left = do ps ← get; refuse (not ps.lval_check.can_be_left_val) cant_assign_to_literal

  unfoldable pub parse_inplace_op : ℕ → M (Unit {0})
  unfolding next lval_check_cache_push parse_expr value_assign_fix write_ins lval_check_cache_pop
  parse_inplace_op op_val = do
    next
    check_left
    lval_check_cache_push
    parse_expr try_expr
    value_assign_fix
    write_ins bc_operator 0 op_val
    lval_check_cache_pop

  -- What stands on the right of the last '=' is a tuple or a list of `last_seqsize` items, which
  -- stay on the stack, or is taken apart when the code runs.
  unfoldable pub unpack_right : ℕ → M (Unit {0})
  unfolding opcode_top opcode_popn write_ins
  unpack_right last_seqsize = do
    ins ← opcode_top
    if ins.code == bc_new_obj && (ins.exarg == type_tuple || ins.exarg == type_list)
        then (do
          opcode_popn 1
          if ins.extra == last_seqsize then return tt else fail not_enough_values_to_unpack)
        else write_ins bc_unpack_seq 0 last_seqsize

  -- The body of the loop, behind the test for '='; it returns the new `last_seqsize`.
  unfoldable pub assign_step : ℕ → M ℕ
  unfolding next lval_check_cache_push opcode_popn parse_expr value_assign_fix unpack_right
      lval_check_cache_pop
  assign_step last_seqsize = do
    next
    check_left
    size ← lval_check_cache_push
    opcode_popn size
    parse_expr try_expr
    seqsize ← value_assign_fix
    refuse (ltb 0 last_seqsize && not (seqsize == last_seqsize)) different_unpack_sequences_size
    tk ← peek
    if not (tk == b'=') && ltb 0 seqsize then unpack_right seqsize else return tt
    lval_check_cache_pop
    return seqsize

  unfoldable pub assign_loop : ℕ → ℕ → M ℕ
  unfolding assign_step
  assign_loop zero last_seqsize ps = out_of_fuel
  assign_loop (suc fuel) last_seqsize ps =
      let again : ℕ → M ℕ = λ n ps'. assign_loop fuel n ps' in
      (do
        tk ← peek
        if tk == b'=' then (do n ← assign_step last_seqsize; again n) else return last_seqsize)
        ps

  unfoldable pub parse_value_assign : ℕ → M (Unit {0})
  unfolding assign_loop write_ins
  parse_value_assign fuel = do
    tk ← peek
    refuse (not (tk == b'=')) invalid_syntax
    last_seqsize ← assign_loop fuel 0
    if ltb 0 last_seqsize then write_ins bc_popn 0 last_seqsize else write_ins bc_pop 0 0

  module _ (same : Const → Const → Bool) where
    -- `kv_top(opcodes).code = code`
    abbrev turn_into : ℕ → M Bool
    unfolding opcode_change_top
    turn_into code = do opcode_change_top (λ ins. record ins { code = code }); return true

    -- The `switch` on the last instruction of the item.
    unfoldable pub del_switch : ℕ → Instruction → M Bool
    unfolding turn_into opcode_popn
    del_switch codesize ins =
        if ins.code == bc_load_val || ins.code == bc_load_val_
        then turn_into bc_del_name
        else if ins.code == bc_get_attr || ins.code == bc_get_attr_
        then turn_into bc_del_attr
        else if ins.code == bc_get_item || ins.code == bc_get_item_
        then turn_into bc_del_item
        else if ins.code == bc_get_slice || ins.code == bc_get_slice_
        then turn_into bc_del_slice
        else (do size ← opcode_size; opcode_popn (size - codesize); return false)

    -- It tells whether there is an item that can be deleted, where the code returns 0 or an error.
    unfoldable pub parse_try_del_item : ℕ → M Bool
    unfolding name_t parse_try_suffix opcode_top del_switch
    parse_try_del_item fuel = do
      tk ← peek
      codesize ← opcode_size
      if tk == tk_name
          then (do
            name_t same
            parse_try_suffix same try_expr fuel false
            ins ← opcode_top
            del_switch codesize ins)
          else return false

    abbrev del_item : ℕ → M (Unit {0})
    unfolding parse_try_del_item
    del_item fuel = do ok ← parse_try_del_item fuel; if ok then return tt else fail invalid_syntax

    unfoldable pub del_loop : ℕ → M (Unit {0})
    unfolding next del_item
    del_loop zero ps = out_of_fuel
    del_loop (suc fuel) ps =
        let again : M (Unit {0}) = λ ps'. del_loop fuel ps' in
        (do
          tk ← peek
          if tk == b','
              then (do
                next
                tk' ← peek
                if tk' == tk_newline then return tt else (del_item fuel >> again))
              else return tt)
          ps

    -- The items, and the bracket that closes, if there was one.
    abbrev del_items : ℕ → M (Unit {0}) → M (Unit {0})
    unfolding del_item del_loop
    del_items fuel close = do del_item fuel; del_loop fuel; close

    unfoldable pub parse_del : ℕ → M (Unit {0})
    unfolding next del_items accept
    parse_del fuel = do
      next
      tk ← peek
      if tk == b'['
          then (do next; tk' ← peek; if tk' == b']' then next else del_items fuel (accept b']'))
          else if tk == b'('
          then (do next; tk' ← peek; if tk' == b')' then next else del_items fuel (accept b')'))
          else del_items fuel (return tt)
