-- ===== src/Parser/Suffix.antt =====
-- `parse_try_suffix`: attributes, items, slices and calls behind a term.
use python_lite.Base.{ℕ, zero, suc, ◌+◌, ◌-◌, Bool, true, false, ◌||◌, ◌==◌, if◌then◌else◌}
use python_lite.Lexer.Token.{tk_name, tk_op_pow}
use python_lite.Vm.Codes.{
  Instruction, bc_get_attr, bc_get_attr_, bc_get_slice, bc_get_slice_, bc_get_item, bc_get_item_,
  bc_call, bc_unpack_arg, bc_dict_combine, bc_new_obj, bc_loadconst, type_dict,
}
use python_lite.Parser.State.{
  Const, value, out_of_fuel, invalid_syntax, keyword_cant_be_an_expr, M, ◌>>=◌, ◌>>◌, return, fail,
  get, peek, peek_obj, next, accept, lval_check_judge,
}
use python_lite.Parser.Emit.{
  write_ins, store_const, sload_const, sload_none, opcode_top, opcode_change_top,
}
use python_lite.Parser.Containers.{parse_expr, no_tuple, tuple_off}

-- The instruction with an underscore at its end, where a left value may stand.
abbrev pub write_judged : ℕ → ℕ → ℕ → M (Unit {0})
unfolding lval_check_judge write_ins
write_judged marked plain extra = do
  valid ← lval_check_judge true
  write_ins (if valid then marked else plain) 0 extra

module _ (same : Const → Const → Bool) where
  -- The case of '.'.
  unfoldable pub attr_suffix : M (Unit {0})
  unfolding next accept store_const write_judged
  attr_suffix = do
    next
    tk ← peek
    obj ← peek_obj
    if tk == tk_name
        then (do i ← store_const same (value obj); write_judged bc_get_attr_ bc_get_attr i)
        else return tt
    accept tk_name

  module _ (try_expr : M Bool) where
    -- `slice_parse_final`
    unfoldable pub slice_final : M (Unit {0})
    unfolding write_judged
    slice_final = write_judged bc_get_slice_ bc_get_slice 0

    -- `slice_parse_step`
    unfoldable pub slice_step : M (Unit {0})
    unfolding slice_final next sload_none accept parse_expr
    slice_step = do
      tk ← peek
      if tk == b']'
          then (do next; sload_none; slice_final)
          else (do parse_expr try_expr; accept b']'; slice_final)

    -- `slice_parse_end`
    unfoldable pub slice_end : M (Unit {0})
    unfolding slice_final slice_step next sload_none parse_expr
    slice_end = do
      tk ← peek
      if tk == b']'
          then (do next; sload_none; sload_none; slice_final)
          else if tk == b':'
          then (do next; sload_none; slice_step)
          else (do
            parse_expr try_expr
            tk' ← peek
            if tk' == b']'
                then (do next; sload_none; slice_final)
                else if tk' == b':'
                then (next >> slice_step)
                else slice_step)

    -- The case of '['.
    unfoldable pub item_suffix : M (Unit {0})
    unfolding slice_end next sload_none parse_expr accept write_judged
    item_suffix = do
      next
      tk ← peek
      if tk == b':' then (do next; sload_none; slice_end) else (do
        parse_expr try_expr
        tk' ← peek
        if tk' == b':'
            then (next >> slice_end)
            else (do accept b']'; write_judged bc_get_item_ bc_get_item 0))

    -- The keyword arguments behind the first one; `num` are read.
    unfoldable pub kwargs_loop : ℕ → ℕ → M ℕ
    unfolding next accept parse_expr sload_const
    kwargs_loop zero num ps = out_of_fuel
    kwargs_loop (suc fuel) num ps =
        let more : M ℕ = λ ps'. kwargs_loop fuel (num + 1) ps' in
        let argument : M ℕ = do
          obj ← peek_obj
          sload_const same (value obj)
          next
          accept b'='
          parse_expr try_expr
          more
        in let item : M ℕ = do next; tk ← peek; if tk == tk_name then argument else return num
          in (do tk ← peek; if tk == b',' then item else return num) ps

    -- A first keyword argument, whose name has been loaded, and the others.
    unfoldable pub kwargs_given : ℕ → M ℕ
    unfolding next opcode_change_top parse_expr kwargs_loop write_ins
    kwargs_given fuel = do
      next
      opcode_change_top λ ins. record ins { code = bc_loadconst }
      parse_expr try_expr
      num_kwargs ← kwargs_loop fuel 1
      write_ins bc_new_obj type_dict num_kwargs
      return num_kwargs

    -- What an argument is: a positional one, by how much it raises the number of those, or the
    -- keyword arguments.
    pub data Argument : Type 0 where
      positional : ℕ → Argument
      keywords : ℕ → Argument

    -- An argument that begins with a name.
    unfoldable pub name_argument : ℕ → M Argument
    unfolding parse_expr kwargs_given
    name_argument fuel = do
      before ← get
      parse_expr try_expr
      after ← get
      if after.token.val == b'='
          then (if after.token_count - before.token_count == 1
              then (do num_kwargs ← kwargs_given fuel; return (keywords num_kwargs))
              else fail keyword_cant_be_an_expr)
          else return (positional 1)

    unfoldable pub argument : ℕ → ℕ → M Argument
    unfolding next write_ins parse_expr name_argument
    argument fuel tk =
        if tk == b'*'
        then (do
          next
          ok ← try_expr
          if ok
              then (do write_ins bc_unpack_arg 0 0; return (positional 0))
              else fail invalid_syntax)
        else if tk == tk_name
        then name_argument fuel
        else (do parse_expr try_expr; return (positional 1))

    -- The end of a round of the loop; `more` goes on with so many positional arguments more.
    abbrev pub after_argument : (ℕ → M (ℕ × ℕ)) → ℕ → Argument → M (ℕ × ℕ)
    unfolding next
    after_argument more num (keywords num_kwargs) = return (num, num_kwargs)
    after_argument more num (positional k) = do
      tk ← peek
      if tk == b',' then next else return tt
      tk' ← peek
      if tk' == b')' then return (num + k, 0) else more k

    -- The loop over the arguments: the number of positional ones, and of keyword ones.
    unfoldable pub args_loop : ℕ → ℕ → M (ℕ × ℕ)
    unfolding argument after_argument
    args_loop zero num ps = out_of_fuel
    args_loop (suc fuel) num ps =
        let more : ℕ → M (ℕ × ℕ) = λ k ps'. args_loop fuel (num + k) ps' in
        (do
          tk ← peek
          if tk == tk_op_pow
              then return (num, 0)
              else (do a ← argument fuel tk; after_argument more num a))
          ps

    -- `_call_unpack_dict`
    unfoldable pub call_unpack_dict : Bool → ℕ → ℕ → M (Unit {0})
    unfolding next parse_expr write_ins accept lval_check_judge
    call_unpack_dict old num num_kwargs = do
      tk ← peek
      given ←
          (if tk == tk_op_pow
            then (do
              next
              parse_expr try_expr
              if num_kwargs == 0 then return tt else write_ins bc_dict_combine 0 0
              tk' ← peek
              if tk' == b',' then next else return tt
              return 1)
            else return num_kwargs)
      accept b')'
      lval_check_judge false
      write_ins bc_call (if given == 0 then 0 else 1) num
      no_tuple old

    unfoldable pub method_trigger : Instruction → M (Unit {0})
    unfolding opcode_change_top
    method_trigger ins =
        if ins.code == bc_get_attr || ins.code == bc_get_attr_
        then opcode_change_top (λ top. record top { exarg = 1 })
        else return tt

    -- The case of '('.
    unfoldable pub call_suffix : ℕ → M (Unit {0})
    unfolding next opcode_top method_trigger args_loop call_unpack_dict
    call_suffix fuel = do
      next
      ins ← opcode_top
      method_trigger ins
      old ← tuple_off
      tk ← peek
      if tk == b')'
          then call_unpack_dict old 0 0
          else (do (num, num_kwargs) ← args_loop fuel 0; call_unpack_dict old num num_kwargs)

    -- It tells whether an attribute, an item or a slice was read; a call does not count.
    unfoldable pub parse_try_suffix : ℕ → Bool → M Bool
    unfolding attr_suffix item_suffix call_suffix
    parse_try_suffix zero accepted ps = out_of_fuel
    parse_try_suffix (suc fuel) accepted ps =
        let again : Bool → M Bool = λ b ps'. parse_try_suffix fuel b ps' in
        (do
          tk ← peek
          if tk == b'.'
              then (attr_suffix >> again true)
              else if tk == b'['
              then (item_suffix >> again true)
              else if tk == b'('
              then (call_suffix fuel >> again accepted)
              else return accepted)
          ps
