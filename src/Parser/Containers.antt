-- ===== src/Parser/Containers.antt =====
-- `parse_expr`, over the function that tries an expression, and the literals: `parse_get_consttype`,
-- `parse_mutabletype` and `parse_basetype`. The loops are on fuel.
use python_lite.Base.{
  ℕ, zero, suc, ◌+◌, ◌-◌, Bool, true, false, not, ◌||◌, Option, none, some, ◌==◌, if◌then◌else◌,
}
use python_lite.Lexer.Token.{
  tk_kw_true, tk_kw_false, tk_kw_none, tk_int, tk_float, tk_string, tk_bytes,
}
use python_lite.Vm.Codes.{bc_new_obj, type_list, type_set, type_dict}
use python_lite.Parser.State.{
  Const, none_obj, bool_obj, value, fraction, undefined, out_of_fuel, invalid_syntax, M, ◌>>=◌,
  ◌>>◌, return, fail, get, modify, peek, peek_obj, next, accept, lval_check_judge,
}
use python_lite.Parser.Emit.{write_ins, sload_const}

abbrev pub no_tuple : Bool → M (Unit {0})
no_tuple b = modify λ ps. record ps { disable_expr_tuple_parse = b }

-- `old = ps->disable_expr_tuple_parse; ps->disable_expr_tuple_parse = true;`
abbrev pub tuple_off : M Bool
tuple_off = do ps ← get; no_tuple true; return ps.disable_expr_tuple_parse

-- The case of '.' of `parse_get_consttype`: an object that is not set is used unless an integer
-- follows.
unfoldable pub dot_literal : M Const
unfolding next
dot_literal = do
  next
  tk ← peek
  obj ← peek_obj
  if tk == tk_int then (do next; return (fraction obj)) else λ ps. undefined

-- The `switch` of `parse_get_consttype`, on the token and its object.
unfoldable pub const_switch : ℕ → ℕ → M (Option Const)
unfolding next dot_literal
const_switch tk obj =
    if tk == tk_kw_true
    then (do next; return (some (bool_obj true)))
    else if tk == tk_kw_false
    then (do next; return (some (bool_obj false)))
    else if tk == tk_kw_none
    then (do next; return (some none_obj))
    else if tk == tk_int || tk == tk_float || tk == tk_string || tk == tk_bytes
    then (do next; return (some (value obj)))
    else if tk == b'.'
    then (do c ← dot_literal; return (some c))
    else return none

unfoldable pub parse_get_consttype : M (Option Const)
unfolding const_switch
parse_get_consttype = do tk ← peek; obj ← peek_obj; const_switch tk obj

abbrev pub level_up : M (Unit {0})
level_up = modify λ ps. record ps {
  lval_check = record ps.lval_check { expr_level = ps.lval_check.expr_level + 1 };
}

abbrev pub level_down : M (Unit {0})
level_down = modify λ ps. record ps {
  lval_check = record ps.lval_check { expr_level = ps.lval_check.expr_level - 1 };
}

-- `parse_try_expr` is given.
module _ (try_expr : M Bool) where
  unfoldable pub parse_expr : M (Unit {0})
  parse_expr = do
    tk ← peek
    if tk == b'[' || tk == b'('
        then (do ok ← try_expr; if ok then return tt else fail invalid_syntax)
        else (do level_up; ok ← try_expr; if ok then level_down else fail invalid_syntax)

  unfoldable pub parse_expr_without_tuple_parse : M (Unit {0})
  unfolding parse_expr
  parse_expr_without_tuple_parse = do old ← tuple_off; parse_expr; no_tuple old

  -- The rest of a tuple or a set: expressions with ',' between them, after `num` of them.
  unfoldable pub items_loop : ℕ → ℕ → M ℕ
  unfolding next
  items_loop zero num ps = out_of_fuel
  items_loop (suc fuel) num ps =
      let more : M ℕ = λ ps'. items_loop fuel (num + 1) ps' in
      (do
        ok ← try_expr
        tk ← peek
        if not ok then return num else if tk == b',' then (next >> more) else return (num + 1))
        ps

  -- The loop of '['. `none` is the early `return 0`.
  unfoldable pub list_loop : ℕ → ℕ → M (Option ℕ)
  unfolding parse_expr next
  list_loop zero num ps = out_of_fuel
  list_loop (suc fuel) num ps =
      let more : M (Option ℕ) = λ ps'. list_loop fuel (num + 1) ps' in
      let item : M (Option ℕ) = do
        parse_expr
        tk ← peek
        if tk == b','
            then (next >> more)
            else if tk == b']'
            then return (some (num + 1))
            else return none
      in (do tk ← peek; if tk == b']' then return (some num) else item) ps

  unfoldable pub dict_loop : ℕ → ℕ → M ℕ
  unfolding parse_expr next accept
  dict_loop zero num ps = out_of_fuel
  dict_loop (suc fuel) num ps =
      let more : M ℕ = λ ps'. dict_loop fuel (num + 1) ps' in
      let item : M ℕ = do
        next
        ok ← try_expr
        if ok then (do accept b':'; parse_expr; more) else return num
      in (do tk ← peek; if tk == b',' then item else return num) ps

  abbrev pub list_end : Bool → Option ℕ → M (Option (ℕ × ℕ))
  list_end old none = return none
  list_end old (some num) = do next; no_tuple old; return (some (type_list, num))

  -- The case of '[' after the bracket.
  unfoldable pub list_literal : ℕ → M (Option (ℕ × ℕ))
  unfolding next list_loop
  list_literal fuel = do
    tk ← peek
    if tk == b']'
        then (do next; return (some (type_list, 0)))
        else (do old ← tuple_off; num ← list_loop fuel 0; list_end old num)

  abbrev pub brace_end : Bool → ℕ → ℕ → M (Option (ℕ × ℕ))
  unfolding accept
  brace_end old kind num = do accept b'}'; no_tuple old; return (some (kind, num))

  -- The case of '{' after the brace.
  unfoldable pub brace_literal : ℕ → M (Option (ℕ × ℕ))
  unfolding next parse_expr items_loop dict_loop accept
  brace_literal fuel = do
    tk ← peek
    if tk == b'}' then (do next; return (some (type_dict, 0))) else (do
      old ← tuple_off
      parse_expr
      tk' ← peek
      if tk' == b','
          then (do next; num ← items_loop fuel 1; brace_end old type_set num)
          else if tk' == b'}'
          then brace_end old type_set 1
          else if tk' == b':'
          then (do next; parse_expr; num ← dict_loop fuel 1; brace_end old type_dict num)
          else return none)

  -- `none` is `return 0`; else the type and the number of items.
  unfoldable pub parse_mutabletype : ℕ → M (Option (ℕ × ℕ))
  unfolding next list_literal brace_literal
  parse_mutabletype fuel = do
    tk ← peek
    if tk == b'['
        then (next >> list_literal fuel)
        else if tk == b'{'
        then (next >> brace_literal fuel)
        else return none

  abbrev pub new_container : Option (ℕ × ℕ) → M Bool
  new_container none = return false
  new_container (some (kind, num)) = do write_ins bc_new_obj kind num; return true

  abbrev pub base_const : (Const → Const → Bool) → ℕ → Option Const → M Bool
  base_const same fuel (some obj) = do sload_const same obj; lval_check_judge false; return true
  base_const same fuel none = do made ← parse_mutabletype fuel; new_container made

  unfoldable pub parse_basetype : (Const → Const → Bool) → ℕ → M Bool
  unfolding parse_get_consttype lval_check_judge sload_const parse_mutabletype
  parse_basetype same fuel = do obj ← parse_get_consttype; base_const same fuel obj
