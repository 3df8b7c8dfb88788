-- ===== src/Parser/Expr.antt =====
-- Expressions: `parse_try_t`, the levels of operators and `parse_try_expr`. `parse_exprK` for K
-- from 9 to 1 is `parse_level` at 9 - K, so a greater number binds less.
use python_lite.Base.{
  ℕ, zero, suc, Bool, true, false, not, ◌&&◌, ◌||◌, Option, none, some, leb, ◌==◌, if◌then◌else◌,
}
use python_lite.Lexer.Token.{
  tk_name, tk_kw_not, tk_kw_lambda, tk_kw_in, tk_kw_is, tk_kw_and, tk_kw_or, tk_op_pow,
  tk_op_floordiv, tk_op_lshift, tk_op_rshift, tk_op_le, tk_op_ge, tk_op_eq, tk_op_ne,
}
use python_lite.Vm.Ops.{
  op_or, op_and, op_not, op_not_in, op_is, op_is_not, op_bitor, op_bitxor, op_bitand, op_lshift,
  op_rshift, op_pos, op_neg, op_bitnot, op_pow, token_to_op_val,
}
use python_lite.Vm.Codes.{bc_load_val, bc_load_val_, bc_operator, bc_new_obj, type_tuple}
use python_lite.Parser.State.{
  Const, value, out_of_fuel, invalid_syntax, M, ◌>>=◌, ◌>>◌, return, fail, get, peek, peek_obj,
  next, accept, lval_check_valid, lval_check_judge,
}
use python_lite.Parser.Emit.{write_ins, store_const}
use python_lite.Parser.Containers.{parse_expr, parse_basetype, items_loop, no_tuple}
use python_lite.Parser.Suffix.{parse_try_suffix}
use python_lite.Parser.Params.{parse_lambda}

-- `write_ins(ps, BC_OPERATOR, 0, op); lval_check_judge(ps, false);`
unfoldable pub write_op : ℕ → M (Unit {0})
unfolding write_ins lval_check_judge
write_op op = do write_ins bc_operator 0 op; lval_check_judge false; return tt

-- The operators of a level that are one token.
unfoldable pub simple_op : ℕ → ℕ → Option ℕ
simple_op i tk =
    if i == 0
    then (if tk == b'*' || (tk == b'@' || (tk == b'/' || (tk == tk_op_floordiv || tk == b'%')))
        then some (token_to_op_val tk)
        else none)
    else if i == 1
    then (if tk == b'+' || tk == b'-' then some (token_to_op_val tk) else none)
    else if i == 2
    then (if tk == tk_op_lshift
        then some op_lshift
        else if tk == tk_op_rshift
        then some op_rshift
        else none)
    else if i == 3
    then (if tk == b'&' then some op_bitand else none)
    else if i == 4
    then (if tk == b'^' then some op_bitxor else none)
    else if i == 5
    then (if tk == b'|' then some op_bitor else none)
    else if i == 6
    then (if tk == tk_kw_in
          || (tk == b'<'
              || (tk == tk_op_le
                  || (tk == b'>' || (tk == tk_op_ge || (tk == tk_op_ne || tk == tk_op_eq)))))
        then some (token_to_op_val tk)
        else none)
    else if i == 7
    then (if tk == tk_kw_and then some op_and else none)
    else if i == 8
    then (if tk == tk_kw_or then some op_or else none)
    else none

abbrev pub read_simple : Option ℕ → M (Option ℕ)
read_simple none = return none
read_simple (some op) = do next; return (some op)

-- `is` and `is not`
abbrev pub read_is : M (Option ℕ)
read_is = do
  next
  tk ← peek
  if tk == tk_kw_not then (do next; return (some op_is_not)) else return (some op_is)

-- `not in`
abbrev pub read_not_in : M (Option ℕ)
read_not_in = do next; accept tk_kw_in; return (some op_not_in)

-- The operator at which a level goes on, which is read.
unfoldable pub read_op : ℕ → M (Option ℕ)
unfolding simple_op token_to_op_val next accept
read_op i = do
  ps ← get
  let tk = ps.token.val
  if i == 6 && (tk == tk_kw_in && (ps.disable_op_in_parse && leb ps.lval_check.expr_level 1))
      then return none
      else if i == 6 && tk == tk_kw_is
      then read_is
      else if i == 6 && tk == tk_kw_not
      then read_not_in
      else read_simple (simple_op i tk)

-- `parse_expr10`, over `parse_try_expr10`.
unfoldable pub parse_expr10 : M Bool → M (Unit {0})
parse_expr10 try_expr10 = do ok ← try_expr10; if ok then return tt else fail invalid_syntax

-- What the code writes as a list of calls: the first one, and then the levels below `i` in turn.
unfoldable pub operand : M (Unit {0}) → (ℕ → M (Unit {0})) → ℕ → M (Unit {0})
operand first level zero = first
operand first level (suc i) = operand first level i >> level i

abbrev pub level_rest : M Bool → (ℕ → M (Unit {0})) → ℕ → Option ℕ → M (Unit {0})
level_rest try_expr10 level i none = return tt
level_rest try_expr10 level i (some op) = do
  operand (parse_expr10 try_expr10) level i
  write_op op
  level i

-- The body of a level.
unfoldable pub level_body : M Bool → (ℕ → M (Unit {0})) → ℕ → M (Unit {0})
unfolding read_op operand parse_expr10 write_op
level_body try_expr10 level i = do op ← read_op i; level_rest try_expr10 level i op

abbrev pub power_rest : M Bool → Bool → ℕ → M Bool
power_rest try_t false tk = return false
power_rest try_t true tk =
    if tk == tk_op_pow
    then (do
      next
      ok' ← try_t
      if ok' then (do write_op op_pow; return true) else fail invalid_syntax)
    else return true

-- The body of `parse_try_expr10`.
unfoldable pub expr10_body : M Bool → M Bool
unfolding next write_op
expr10_body try_t = do ok ← try_t; tk ← peek; power_rest try_t ok tk

module _ (same : Const → Const → Bool) where
  unfoldable pub name_t : M (Unit {0})
  unfolding next store_const write_ins lval_check_valid
  name_t = do
    obj ← peek_obj
    next
    i ← store_const same (value obj)
    ps ← get
    write_ins (if lval_check_valid ps then bc_load_val_ else bc_load_val) 0 i

  -- The case of '('.
  unfoldable pub paren_t : ℕ → M Bool → M (Unit {0})
  unfolding next parse_expr items_loop write_ins accept
  paren_t fuel try_expr = do
    next
    tk ← peek
    if tk == b')' then (do next; write_ins bc_new_obj type_tuple 0) else (do
      parse_expr try_expr
      tk' ← peek
      if tk' == b','
          then (do next; num ← items_loop try_expr fuel 1; write_ins bc_new_obj type_tuple num)
          else return tt
      accept b')')

  -- The cases of '+', '-' and '~'.
  unfoldable pub unary_t : M Bool → ℕ → M (Unit {0})
  unfolding next parse_expr10 write_op
  unary_t try_expr10 op = do next; parse_expr10 try_expr10; write_op op

  unfoldable pub not_t : M Bool → (ℕ → M (Unit {0})) → M (Unit {0})
  unfolding next operand parse_expr10 write_op
  not_t try_expr10 level = do next; operand (parse_expr10 try_expr10) level 7; write_op op_not

  -- The `switch` of `parse_try_t`.
  unfoldable pub t_switch : ℕ → M Bool → M Bool → (ℕ → M (Unit {0})) → ℕ → M Bool
  unfolding name_t paren_t unary_t not_t parse_lambda lval_check_judge parse_basetype
  t_switch fuel try_expr try_expr10 level tk =
      if tk == tk_name
      then (name_t >> return true)
      else if tk == b'('
      then (paren_t fuel try_expr >> return true)
      else if tk == b'+' || tk == b'-'
      then (unary_t try_expr10 (if tk == b'+' then op_pos else op_neg) >> return true)
      else if tk == b'~'
      then (unary_t try_expr10 op_bitnot >> return true)
      else if tk == tk_kw_not
      then (not_t try_expr10 level >> return true)
      else if tk == tk_kw_lambda
      then (do parse_lambda same try_expr fuel; lval_check_judge false; return true)
      else parse_basetype try_expr same fuel

  abbrev pub t_suffix : ℕ → M Bool → Bool → M Bool
  t_suffix fuel try_expr true = do parse_try_suffix same try_expr fuel false; return true
  t_suffix fuel try_expr false = return false

  -- The body of `parse_try_t`.
  unfoldable pub t_body : ℕ → M Bool → M Bool → (ℕ → M (Unit {0})) → M Bool
  unfolding t_switch parse_try_suffix
  t_body fuel try_expr try_expr10 level = do
    tk ← peek
    ok ← t_switch fuel try_expr try_expr10 level tk
    t_suffix fuel try_expr ok

  -- The tuple at the end of `parse_try_expr`.
  unfoldable pub tuple_rest : ℕ → M Bool → M Bool
  unfolding next items_loop write_ins
  tuple_rest fuel try_expr = do
    ps ← get
    if not ps.disable_expr_tuple_parse && ps.token.val == b','
        then (do
          next
          no_tuple true
          num ← items_loop try_expr fuel 1
          write_ins bc_new_obj type_tuple num
          no_tuple false
          return true)
        else return true

  -- The body of `parse_try_expr`.
  unfoldable pub expr_body : ℕ → M Bool → M Bool → (ℕ → M (Unit {0})) → M Bool
  unfolding operand tuple_rest
  expr_body fuel try_expr try_expr10 level = do
    ok ← try_expr10
    if ok then (do operand (return tt) level 9; tuple_rest fuel try_expr) else return false

  -- The functions, on fuel.
  unfoldable mutual
    unfolding t_body expr10_body level_body expr_body

    pub parse_try_t : ℕ → M Bool
    parse_try_t zero ps = out_of_fuel
    parse_try_t (suc n) ps = t_body n (parse_try_expr n) (parse_try_expr10 n) (parse_level n) ps

    pub parse_try_expr10 : ℕ → M Bool
    parse_try_expr10 zero ps = out_of_fuel
    parse_try_expr10 (suc n) ps = expr10_body (parse_try_t n) ps

    pub parse_level : ℕ → ℕ → M (Unit {0})
    parse_level zero i ps = out_of_fuel
    parse_level (suc n) i ps = level_body (parse_try_expr10 n) (parse_level n) i ps

    pub parse_try_expr : ℕ → M Bool
    parse_try_expr zero ps = out_of_fuel
    parse_try_expr (suc n) ps =
        expr_body n (parse_try_expr n) (parse_try_expr10 n) (parse_level n) ps
