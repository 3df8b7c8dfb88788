-- ===== src/Parser/Total.antt =====
-- Whatever the tokens are, the parser of expressions ends, and keeps to its contract.
use python_lite.Base.{
  ℕ, zero, suc, ◌+◌, ◌-◌, ◌≤◌, ◌<◌, ◌≡◌, ◌≢◌, refl, Bool, true, false, not, ◌&&◌, ◌||◌, Option,
  none, some, leb, ◌==◌, if◌then◌else◌, arith,
}
use python_lite.Lexer.Token.{
  tk_end, tk_name, tk_kw_not, tk_kw_lambda, tk_kw_in, tk_kw_is, tk_op_pow,
}
use python_lite.Vm.Ops.{op_pow, op_not, op_pos, op_neg, op_bitnot, op_is, op_is_not, op_not_in}
use python_lite.Vm.Codes.{bc_load_val, bc_load_val_, bc_operator, bc_new_obj, type_tuple}
use python_lite.Parser.State.{
  Const, value, M, invalid_syntax, lval_check_valid, return, ◌>>=◌, ◌>>◌,
}
use python_lite.Parser.Emit.{write_ins}
use python_lite.Parser.Expr.{
  write_op, simple_op, read_simple, read_op, parse_expr10, operand, level_rest, level_body,
  power_rest, expr10_body, name_t, paren_t, unary_t, not_t, t_switch, t_suffix, t_body, tuple_rest,
  expr_body,
}
use python_lite.Parser.Contract.{Safe, next_any-Safe}
use python_lite.Parser.Rules.{
  Enough, fuel_below, fuel_less, lower, peeks, peek_objs, gets, branch, fails, returns, then_,
  then_less,
}
use python_lite.Parser.Results.{
  Tries, try_then, lower_try, Gives, gives, Gives-return, Gives-branch, Gives-peek, Gives-get,
  Gives-then_less, lower-Gives, Gives-less, if_true_one, if_some_one,
}
use python_lite.Parser.Writes.{
  ne_end, reads, accept-Safe, write_ins-Safe, store_const-Safe, lval_check_judge-Safe,
}
use python_lite.Parser.Literals.{
  parse_expr-Safe, no_tuple-Safe, items_loop-Safe, parse_basetype-Gives, true_less_one, some_le_one,
}
use python_lite.Parser.Suffixes.{parse_try_suffix-Safe}
use python_lite.Parser.Lambdas.{parse_lambda-Safe}

write_op-Safe : {F : Type 0} {c : Option ℕ} {b : ℕ} (op : ℕ) → Safe F c b 0 (write_op op)
unfolding write_op
write_op-Safe op =
    then_ _ _ (write_ins-Safe bc_operator 0 op refl)
      λ _. then_ _ _ (lval_check_judge-Safe false) λ _. returns tt

simple_op_end : (i tk : ℕ) {op : ℕ} → simple_op i tk ≡ some op → tk ≢ tk_end
unfolding simple_op
simple_op_end i tk e h = ground arith

read_simple-Gives :
    {F : Type 0} {b : ℕ} (i tk : ℕ) (op : Option ℕ)
    → simple_op i tk ≡ op
    → Gives F (some tk) b if_some_one (read_simple op)
read_simple-Gives i tk none e = Gives-return if_some_one none refl
read_simple-Gives i tk (some op) e =
    gives if_some_one _ 1 some_le_one
      (reads _ (simple_op_end i tk e) refl λ a lt. returns (some op))

is_ne_end : (i tk t : ℕ) → (t == tk_end) ≡ false → (i == 6 && tk == t) ≡ true → tk ≢ tk_end
is_ne_end i tk t d e h = ground arith

read_op-Gives : {F : Type 0} {c : Option ℕ} {b : ℕ} (i : ℕ) → Gives F c b if_some_one (read_op i)
unfolding read_op
read_op-Gives i = Gives-get if_some_one _ λ ps.
    Gives-branch if_some_one
      (i == 6
        && (ps.token.val == tk_kw_in && (ps.disable_op_in_parse && leb ps.lval_check.expr_level 1)))
      (λ _. Gives-return if_some_one none refl)
      λ _.
        Gives-branch if_some_one (i == 6 && ps.token.val == tk_kw_is)
          (λ e. gives if_some_one _ 1 some_le_one (
            reads _ (is_ne_end i ps.token.val tk_kw_is refl e) refl λ a lt. peeks _ λ tk.
              branch (tk == tk_kw_not) (λ _. then_ _ _ next_any-Safe λ _. returns (some op_is_not))
                (λ _. returns (some op_is))))
          λ _.
            Gives-branch if_some_one (i == 6 && ps.token.val == tk_kw_not)
              (λ e. gives if_some_one _ 1 some_le_one (
                reads _ (is_ne_end i ps.token.val tk_kw_not refl e) refl
                  λ a lt. then_ _ _ (accept-Safe tk_kw_in refl refl) λ _. returns (some op_not_in)))
              λ _. read_simple-Gives i ps.token.val (simple_op i ps.token.val) refl

-- `parse_try_expr10` accepts, or the process ends.
module _ (try_expr10 : M Bool) {F : Type 0} {b : ℕ} (ten_ok : Tries F b try_expr10) where
  parse_expr10-Safe : {c : Option ℕ} → Safe F c b 0 (parse_expr10 try_expr10)
  unfolding parse_expr10
  parse_expr10-Safe =
      try_then _ ten_ok _ λ ok. branch ok (λ _. returns tt) (λ _. fails invalid_syntax)

module _ (level : ℕ → M (Unit {0})) {F : Type 0} {b : ℕ}
    (level_ok : (i : ℕ) → Safe F none b 0 (level i)) where
  operand-Safe :
      (first : M (Unit {0})) (i : ℕ)
      → Safe F none b 0 first
      → Safe F none b 0 (operand first level i)
  unfolding operand
  operand-Safe first zero h = h
  operand-Safe first (suc i) h = then_ _ _ (operand-Safe first i h) λ _. level_ok i

  level_rest-Safe :
      (try_expr10 : M Bool) (i op : ℕ)
      → Tries F b try_expr10
      → Safe F none b 0 (level_rest try_expr10 level i (some op))
  level_rest-Safe try_expr10 i op ten_ok =
      then_ _ _ (operand-Safe _ i (parse_expr10-Safe try_expr10 ten_ok))
        λ _. then_ _ _ (write_op-Safe op) λ _. level_ok i

pub level_body-Safe :
    {F : Type 0} {b : ℕ} (try_expr10 : M Bool) (level : ℕ → M (Unit {0})) (i : ℕ)
    → ((a : ℕ) → a < b → Tries F a try_expr10)
    → ((a : ℕ) → a < b → (j : ℕ) → Safe F none a 0 (level j))
    → Safe F none b 0 (level_body try_expr10 level i)
unfolding level_body
level_body-Safe {F} {b} try_expr10 level i ten level_ok =
    Gives-less if_some_one _ _ (read_op-Gives i) rest
  where
    rest :
        (op : Option ℕ) (a : ℕ)
        → a + if_some_one op ≤ b
        → Safe F none a 0 (level_rest try_expr10 level i op)
    rest none a le = returns tt
    rest (some op) a le =
        level_rest-Safe level (level_ok a (omega arith)) try_expr10 i op (ten a (omega arith))

true_le_one : (x : Bool) → leb (if_true_one x) 1 ≡ true
true_le_one true = refl
true_le_one false = refl

pub expr10_body-Tries :
    {F : Type 0} {b : ℕ} (try_t : M Bool) → Tries F b try_t → Tries F b (expr10_body try_t)
unfolding expr10_body
expr10_body-Tries {F} {b} try_t t_ok =
    Gives-then_less if_true_one _ _ if_true_one t_ok
      λ ok a le. lower-Gives a (omega arith) (Gives-peek _ _ λ tk. rest ok tk)
  where
    rest :
        (ok : Bool) (tk : ℕ)
        → Gives F (some tk) b (λ y. if_true_one y - if_true_one ok) (power_rest try_t ok tk)
    rest false tk = Gives-return _ false refl
    rest true tk = gives _ _ 0 true_less_one (
        branch (tk == tk_op_pow)
          (λ _. then_ _ _ next_any-Safe λ _. try_then _ t_ok _ λ ok.
            branch ok (λ _. then_ _ _ (write_op-Safe op_pow) λ _. returns true)
              (λ _. fails invalid_syntax))
          (λ _. returns true))

comma_ne : (disabled : Bool) (tk : ℕ) → (not disabled && tk == b',') ≡ true → tk ≢ tk_end
comma_ne disabled tk e h = ground arith

module _ (same : Const → Const → Bool) {F : Type 0} where
  name_t-Safe : {tk b : ℕ} → (tk == tk_name) ≡ true → Safe F (some tk) b 1 (name_t same)
  unfolding name_t
  name_t-Safe e = peek_objs _ λ obj. reads _ (ne_end tk_name refl e) refl λ a lt.
      then_ _ _ (store_const-Safe same (value obj)) λ i. gets _ λ ps. load (lval_check_valid ps) i
    where
      load :
          (valid : Bool) (i : ℕ) {c : Option ℕ} {b : ℕ}
          → Safe F c b 0 (write_ins (if valid then bc_load_val_ else bc_load_val) 0 i)
      load true i = write_ins-Safe bc_load_val_ 0 i refl
      load false i = write_ins-Safe bc_load_val 0 i refl

  module _ (try_expr try_expr10 : M Bool) (level : ℕ → M (Unit {0})) (n b : ℕ)
      (enough : Enough F b (suc n)) (below : (a : ℕ) → a < b → Tries F a try_expr)
      (ten : (a : ℕ) → a < b → Tries F a try_expr10)
      (levels : (a : ℕ) → a < b → (i : ℕ) → Safe F none a 0 (level i)) where
    paren_t-Safe : {tk : ℕ} → (tk == b'(') ≡ true → Safe F (some tk) b 1 (paren_t same n try_expr)
    unfolding paren_t
    paren_t-Safe e = reads _ (ne_end b'(' refl e) refl λ a lt. peeks _ λ tk.
        branch (tk == b')')
          (λ _. then_ _ _ next_any-Safe λ _. write_ins-Safe bc_new_obj type_tuple 0 refl)
          (λ _. then_ _ _ (parse_expr-Safe try_expr (below a lt)) λ _. peeks _ λ tk'.
            then_ _ _
              (branch (tk' == b',')
                (λ _. then_ _ _ next_any-Safe λ _.
                  then_ _ _ (items_loop-Safe try_expr n 1 a (fuel_below enough lt) (below a lt))
                    λ num. write_ins-Safe bc_new_obj type_tuple num refl)
                (λ _. returns tt))
              λ _. accept-Safe b')' refl refl)

    unary_t-Safe :
        {tk : ℕ} (op : ℕ) → tk ≢ tk_end → Safe F (some tk) b 1 (unary_t same try_expr10 op)
    unfolding unary_t
    unary_t-Safe op ne =
        reads _ ne refl
          λ a lt. then_ _ _ (parse_expr10-Safe try_expr10 (ten a lt)) λ _. write_op-Safe op

    not_t-Safe :
        {tk : ℕ} → (tk == tk_kw_not) ≡ true → Safe F (some tk) b 1 (not_t same try_expr10 level)
    unfolding not_t
    not_t-Safe e = reads _ (ne_end tk_kw_not refl e) refl λ a lt.
        then_ _ _ (operand-Safe level (levels a lt) _ 7 (parse_expr10-Safe try_expr10 (ten a lt)))
          λ _. write_op-Safe op_not

    sign_ne : (tk : ℕ) → (tk == b'+' || tk == b'-') ≡ true → tk ≢ tk_end
    sign_ne tk e h = ground arith

    accepts :
        {tk : ℕ} {m : M (Unit {0})}
        → Safe F (some tk) b 1 m
        → Gives F (some tk) b if_true_one (m >>= λ _. return true)
    accepts h = gives if_true_one _ 1 true_le_one (then_less _ _ h refl λ a lt _. returns true)

    t_switch-Gives :
        (tk : ℕ) → Gives F (some tk) b if_true_one (t_switch same n try_expr try_expr10 level tk)
    unfolding t_switch
    t_switch-Gives tk =
        Gives-branch if_true_one (tk == tk_name) (λ e. accepts (name_t-Safe e))
          λ _.
            Gives-branch if_true_one (tk == b'(') (λ e. accepts (paren_t-Safe e))
              λ _.
                Gives-branch if_true_one (tk == b'+' || tk == b'-')
                  (λ e.
                    accepts (unary_t-Safe (if tk == b'+' then op_pos else op_neg) (sign_ne tk e)))
                  λ _.
                    Gives-branch if_true_one (tk == b'~')
                      (λ e. accepts (unary_t-Safe op_bitnot (ne_end b'~' refl e)))
                      λ _.
                        Gives-branch if_true_one (tk == tk_kw_not) (λ e. accepts (not_t-Safe e))
                          λ _.
                            Gives-branch if_true_one (tk == tk_kw_lambda)
                              (λ e. gives if_true_one _ 1 true_le_one (
                                then_less _ _ (parse_lambda-Safe same try_expr n b enough below e)
                                  refl
                                  λ a lt _.
                                    then_ _ _ (lval_check_judge-Safe false) λ _. returns true))
                              λ _. parse_basetype-Gives try_expr n b enough below same

    suffix-Gives :
        (ok : Bool) (a : ℕ)
        → a + if_true_one ok ≤ b
        → Gives F none a (λ y. if_true_one y - if_true_one ok) (t_suffix same n try_expr ok)
    suffix-Gives false a le = Gives-return _ false refl
    suffix-Gives true a le = gives _ _ 0 true_less_one (
        then_ _ _
          (parse_try_suffix-Safe same try_expr n a false (fuel_below enough (omega arith))
            λ a' lt. below a' (omega arith))
          λ _. returns true)

    pub t_body-Tries : Tries F b (t_body same n try_expr try_expr10 level)
    unfolding t_body
    t_body-Tries =
        Gives-peek if_true_one _
          λ tk. Gives-then_less if_true_one _ _ if_true_one (t_switch-Gives tk) suffix-Gives

  -- The tuple at the end of an expression.
  tuple_rest-Safe :
      (try_expr : M Bool) (n b : ℕ)
      → Enough F b (suc n)
      → Tries F b try_expr
      → Safe F none b 0 (tuple_rest same n try_expr)
  unfolding tuple_rest
  tuple_rest-Safe try_expr n b enough try_ok = gets _ λ ps.
      branch (not ps.disable_expr_tuple_parse && ps.token.val == b',')
        (λ e. reads _ (comma_ne ps.disable_expr_tuple_parse ps.token.val e) refl λ a lt.
          then_ _ _ (no_tuple-Safe true) λ _.
            then_ _ _
              (items_loop-Safe try_expr n 1 a (fuel_below enough lt)
                (lower_try a (omega arith) try_ok))
              λ num.
                then_ _ _ (write_ins-Safe bc_new_obj type_tuple num refl)
                  λ _. then_ _ _ (no_tuple-Safe false) λ _. returns true)
        (λ _. returns true)

  pub expr_body-Tries :
      (try_expr try_expr10 : M Bool) (level : ℕ → M (Unit {0})) (n b : ℕ)
      → Enough F b (suc n)
      → ((a : ℕ) → a < b → Tries F a try_expr)
      → Tries F b try_expr10
      → ((i : ℕ) → Safe F none b 0 (level i))
      → Tries F b (expr_body same n try_expr try_expr10 level)
  unfolding expr_body
  expr_body-Tries try_expr try_expr10 level n b enough below ten levels =
      Gives-then_less if_true_one _ _ if_true_one ten rest
    where
      rest :
          (ok : Bool) (a : ℕ)
          → a + if_true_one ok ≤ b
          → Gives F none a
              (λ y. if_true_one y - if_true_one ok)
              (if ok
                then (do operand (return tt) level 9; tuple_rest same n try_expr)
                else return false)
      rest false a le = Gives-return _ false refl
      rest true a le = gives _ _ 0 true_less_one (
          then_ _ _ (operand-Safe level (λ i. lower a (omega arith) (levels i)) _ 9 (returns tt))
            λ _.
              tuple_rest-Safe try_expr n a (fuel_less enough (omega arith)) (below a (omega arith)))
