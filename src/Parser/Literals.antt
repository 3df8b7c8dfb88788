-- ===== src/Parser/Literals.antt =====
-- The contract of `parse_expr` and of the literals.
use python_lite.Base.{
  ℕ, zero, suc, ◌+◌, ◌-◌, leb, ◌<◌, ◌≡◌, ◌≢◌, refl, Bool, true, false, Option, none, some, ◌==◌,
  ◌||◌, arith, not, if◌then◌else◌,
}
use python_lite.Lexer.Token.{
  tk_end, tk_kw_true, tk_kw_false, tk_kw_none, tk_int, tk_float, tk_string, tk_bytes,
}
use python_lite.Vm.Codes.{bc_new_obj, type_list, type_set, type_dict}
use python_lite.Parser.State.{
  Const, none_obj, bool_obj, value, fraction, M, invalid_syntax, accept, return, fail, next, ◌>>◌,
}
use python_lite.Parser.Containers.{
  parse_expr, parse_expr_without_tuple_parse, items_loop, list_loop, list_end, list_literal,
  dict_loop, brace_end, brace_literal, parse_mutabletype, new_container, base_const, parse_basetype,
  parse_get_consttype, const_switch, dot_literal, tuple_off, no_tuple, level_up, level_down,
}
use python_lite.Parser.Contract.{Safe, next_any-Safe, unset}
use python_lite.Parser.Rules.{
  Enough, no_fuel, fuel_below, fuel_less, peeks, peek_objs, gets, branch, fails, returns, then_,
  then_less,
}
use python_lite.Parser.Results.{
  Gives, gives, Gives-return, Gives-branch, Gives-peek, Gives-peek_obj, Gives-then_less,
  lower-Gives, Gives-weaker, if_true_one, if_some_one, Tries, try_then, try_less, lower_try,
}
use python_lite.Parser.Writes.{
  ne_end, reads, accept-Safe, flags-Safe, write_ins-Safe, sload_const-Safe, lval_check_judge-Safe,
}

module _ {F : Type 0} {c : Option ℕ} {b : ℕ} where
  pub no_tuple-Safe : (x : Bool) → Safe F c b 0 (no_tuple x)
  no_tuple-Safe x = flags-Safe _ λ s. (refl, refl, refl, refl, refl, refl)

  level_up-Safe : Safe F c b 0 level_up
  level_up-Safe = flags-Safe _ λ s. (refl, refl, refl, refl, refl, refl)

  level_down-Safe : Safe F c b 0 level_down
  level_down-Safe = flags-Safe _ λ s. (refl, refl, refl, refl, refl, refl)

pub tuple_off-Safe : {F : Type 0} {c : Option ℕ} {b : ℕ} → Safe F c b 0 tuple_off
tuple_off-Safe = gets _ λ s. then_ _ _ (no_tuple-Safe true) λ _. returns s.disable_expr_tuple_parse

module _ (try_expr : M Bool) {F : Type 0} {b : ℕ} (try_ok : Tries F b try_expr) where
  pub parse_expr-Safe : {c : Option ℕ} → Safe F c b 0 (parse_expr try_expr)
  unfolding parse_expr
  parse_expr-Safe = peeks _ λ tk.
      branch (tk == b'[' || tk == b'(')
        (λ _. try_then _ try_ok _ λ ok. branch ok (λ _. returns tt) (λ _. fails invalid_syntax))
        (λ _. then_ _ _ level_up-Safe λ _.
          try_then _ try_ok _ λ ok. branch ok (λ _. level_down-Safe) (λ _. fails invalid_syntax))

  -- An expression has at least one token.
  pub parse_expr-Safe_one : {c : Option ℕ} → Safe F c b 1 (parse_expr try_expr)
  unfolding parse_expr
  parse_expr-Safe_one = peeks _ λ tk.
      branch (tk == b'[' || tk == b'(')
        (λ _.
          try_less _ try_ok (λ ok. if ok then return tt else fail invalid_syntax) refl
            (λ a lt. returns tt) (fails invalid_syntax))
        (λ _. then_ _ _ level_up-Safe λ _.
          try_less _ try_ok (λ ok. if ok then level_down else fail invalid_syntax) refl
            (λ a lt. level_down-Safe) (fails invalid_syntax))

  pub parse_expr_without_tuple_parse-Safe :
      {c : Option ℕ} → Safe F c b 0 (parse_expr_without_tuple_parse try_expr)
  unfolding parse_expr_without_tuple_parse
  parse_expr_without_tuple_parse-Safe =
      then_ _ _ tuple_off-Safe λ old. then_ _ _ parse_expr-Safe λ _. no_tuple-Safe old

dot_literal-Safe : {F : Type 0} {b tk : ℕ} → (tk == b'.') ≡ true → Safe F (some tk) b 1 dot_literal
unfolding dot_literal
dot_literal-Safe e = reads _ (ne_end b'.' refl e) refl λ a lt. peeks _ λ tk. peek_objs _ λ obj.
    branch (tk == tk_int) (λ _. then_ _ _ next_any-Safe λ _. returns (fraction obj))
      (λ _. record { run = λ s known le. unset })

literal_ne_end :
    (tk : ℕ)
    → (tk == tk_int || tk == tk_float || tk == tk_string || tk == tk_bytes) ≡ true
    → tk ≢ tk_end
literal_ne_end tk e h = ground arith

pub some_le_one {ℓ} : {A : Type ℓ} (x : Option A) → leb (if_some_one x) 1 ≡ true
some_le_one none = refl
some_le_one (some x) = refl

pub true_less_one : (x : Bool) → leb (if_true_one x - 1) 0 ≡ true
true_less_one true = refl
true_less_one false = refl

list_end-Safe :
    {F : Type 0} {b : ℕ} (try_expr : M Bool) (old : Bool) (num : Option ℕ)
    → Safe F none b 0 (list_end try_expr old num)
list_end-Safe try_expr old none = returns none
list_end-Safe try_expr old (some num) =
    then_ _ _ next_any-Safe λ _. then_ _ _ (no_tuple-Safe old) λ _. returns (some (type_list, num))

brace_end-Safe :
    {F : Type 0} {c : Option ℕ} {b : ℕ} (try_expr : M Bool) (old : Bool) (kind num : ℕ)
    → Safe F c b 0 (brace_end try_expr old kind num)
unfolding accept
brace_end-Safe try_expr old kind num =
    then_ _ _ (accept-Safe b'}' refl refl)
      λ _. then_ _ _ (no_tuple-Safe old) λ _. returns (some (kind, num))

-- In the loops `try_expr` is called with at most `b` tokens left.
module _ (try_expr : M Bool) {F : Type 0} where
  pub items_loop-Safe :
      (n num b : ℕ)
      → Enough F b n
      → Tries F b try_expr
      → Safe F none b 0 (items_loop try_expr n num)
  unfolding items_loop
  items_loop-Safe zero num b enough try_ok = no_fuel enough λ s. refl
  items_loop-Safe (suc n) num b enough try_ok = record {
    run =
        (try_then {c = none} _ try_ok _ λ ok. peeks _ λ tk.
          branch (not ok) (λ _. returns num)
            (λ _.
              branch (tk == b',')
                (λ e. reads _ (ne_end b',' refl e) refl λ a lt.
                  items_loop-Safe n (num + 1) a (fuel_below enough lt)
                    (lower_try a (omega arith) try_ok))
                (λ _. returns (num + 1)))).run;
  }

  list_loop-Safe :
      (n num b : ℕ) → Enough F b n → Tries F b try_expr → Safe F none b 0 (list_loop try_expr n num)
  unfolding list_loop
  list_loop-Safe zero num b enough try_ok = no_fuel enough λ s. refl
  list_loop-Safe (suc n) num b enough try_ok = record {
    run =
        (peeks {c = none} _ λ tk.
          branch (tk == b']') (λ _. returns (some num))
            (λ _. then_ _ _ (parse_expr-Safe try_expr try_ok) λ _. peeks _ λ tk'.
              branch (tk' == b',')
                (λ e. reads _ (ne_end b',' refl e) refl λ a lt.
                  list_loop-Safe n (num + 1) a (fuel_below enough lt)
                    (lower_try a (omega arith) try_ok))
                (λ _.
                  branch (tk' == b']') (λ _. returns (some (num + 1))) (λ _. returns none)))).run;
  }

  dict_loop-Safe :
      (n num b : ℕ) → Enough F b n → Tries F b try_expr → Safe F none b 0 (dict_loop try_expr n num)
  unfolding dict_loop
  dict_loop-Safe zero num b enough try_ok = no_fuel enough λ s. refl
  dict_loop-Safe (suc n) num b enough try_ok = record {
    run =
        (peeks {c = none} _ λ tk.
          branch (tk == b',')
            (λ e. reads _ (ne_end b',' refl e) refl λ a lt.
              let below = lower_try a (omega arith) try_ok in
              try_then _ below _ λ ok.
                branch ok
                  (λ _. then_ _ _ (accept-Safe b':' refl refl) λ _.
                    then_ _ _ (parse_expr-Safe try_expr below)
                      λ _. dict_loop-Safe n (num + 1) a (fuel_below enough lt) below)
                  (λ _. returns num))
            (λ _. returns num)).run;
  }

  module _ (n b : ℕ) (enough : Enough F b n) (try_ok : Tries F b try_expr) where
    list_literal-Safe : Safe F none b 0 (list_literal try_expr n)
    unfolding list_literal
    list_literal-Safe = peeks _ λ tk.
        branch (tk == b']')
          (λ e. reads _ (ne_end b']' refl e) refl λ a lt. returns (some (type_list, 0)))
          (λ _. then_ _ _ tuple_off-Safe λ old.
            then_ _ _ (list_loop-Safe n 0 b enough try_ok) λ num. list_end-Safe try_expr old num)

    brace_literal-Safe : Safe F none b 0 (brace_literal try_expr n)
    unfolding brace_literal
    brace_literal-Safe = peeks _ λ tk.
        branch (tk == b'}')
          (λ e. reads _ (ne_end b'}' refl e) refl λ a lt. returns (some (type_dict, 0)))
          (λ _. then_ _ _ tuple_off-Safe λ old. then_ _ _ (parse_expr-Safe try_expr try_ok) λ _.
            peeks _ λ tk'.
              branch (tk' == b',')
                (λ e. reads _ (ne_end b',' refl e) refl λ a lt.
                  then_ _ _
                    (items_loop-Safe n 1 a (fuel_less enough lt) (lower_try a (omega arith) try_ok))
                    λ num. brace_end-Safe try_expr old type_set num)
                (λ _.
                  branch (tk' == b'}') (λ _. brace_end-Safe try_expr old type_set 1)
                    (λ _.
                      branch (tk' == b':')
                        (λ e. reads _ (ne_end b':' refl e) refl λ a lt.
                          then_ _ _ (parse_expr-Safe try_expr (lower_try a (omega arith) try_ok))
                            λ _.
                              then_ _ _
                                (dict_loop-Safe n 1 a (fuel_less enough lt)
                                  (lower_try a (omega arith) try_ok))
                                λ num. brace_end-Safe try_expr old type_dict num)
                        (λ _. returns none))))

  module _ (n b : ℕ) (enough : Enough F b (suc n))
      (below : (a : ℕ) → a < b → Tries F a try_expr) where
    mutable-Gives : Gives F none b if_some_one (parse_mutabletype try_expr n)
    unfolding parse_mutabletype
    mutable-Gives = Gives-peek if_some_one _ λ tk.
        Gives-branch if_some_one (tk == b'[')
          (λ e. gives if_some_one _ 1 some_le_one (
            reads _ (ne_end b'[' refl e) refl
              λ a lt. list_literal-Safe n a (fuel_below enough lt) (below a lt)))
          λ _.
            Gives-branch if_some_one (tk == b'{')
              (λ e. gives if_some_one _ 1 some_le_one (
                reads _ (ne_end b'{' refl e) refl
                  λ a lt. brace_literal-Safe n a (fuel_below enough lt) (below a lt)))
              λ _. Gives-return if_some_one none refl

    new_container-Gives :
        {a : ℕ} (made : Option (ℕ × ℕ))
        → Gives F none a (λ y. if_true_one y - if_some_one made) (new_container try_expr made)
    new_container-Gives none = Gives-return _ false refl
    new_container-Gives (some (kind, num)) =
        gives _ _ 0 true_less_one
          (then_ _ _ (write_ins-Safe bc_new_obj kind num refl) λ _. returns true)

    const-Gives : (tk obj : ℕ) → Gives F (some tk) b if_some_one (const_switch tk obj)
    unfolding const_switch
    const-Gives tk obj = found tk_kw_true refl (bool_obj true) λ _.
        found tk_kw_false refl (bool_obj false) λ _. found tk_kw_none refl none_obj λ _.
          Gives-branch if_some_one
            (tk == tk_int || tk == tk_float || tk == tk_string || tk == tk_bytes)
            (λ e.
              gives if_some_one _ 1 some_le_one
                (reads _ (literal_ne_end tk e) refl λ a lt. returns (some (value obj))))
            λ _.
              Gives-branch if_some_one (tk == b'.')
                (λ e.
                  gives if_some_one _ 1 some_le_one
                    (then_less _ _ (dot_literal-Safe e) refl λ a lt x. returns (some x)))
                λ _. Gives-return if_some_one none refl
      where
        found :
            (t : ℕ)
            → (t == tk_end) ≡ false
            → (x : Const) {other : M (Option Const)}
            → ((tk == t) ≡ false → Gives F (some tk) b if_some_one other)
            → Gives F
                (some tk)
                b
                if_some_one
                (if tk == t then (do next; return (some x)) else other)
        found t d x h =
            Gives-branch if_some_one (tk == t)
              (λ e.
                gives if_some_one _ 1 some_le_one
                  (reads _ (ne_end t d e) refl λ a lt. returns (some x)))
              h

    base_const-Gives :
        (same : Const → Const → Bool) (obj : Option Const)
        → Gives F none b (λ y. if_true_one y - if_some_one obj) (base_const try_expr same n obj)
    base_const-Gives same none =
        Gives-weaker if_true_one _ (λ x. omega arith)
          (Gives-then_less if_true_one _ _ if_some_one mutable-Gives
            λ made a le. new_container-Gives made)
    base_const-Gives same (some obj) = gives _ _ 0 true_less_one (
        then_ _ _ (sload_const-Safe same obj)
          λ _. then_ _ _ (lval_check_judge-Safe false) λ _. returns true)

    pub parse_basetype-Gives :
        (same : Const → Const → Bool) {c : Option ℕ}
        → Gives F c b if_true_one (parse_basetype try_expr same n)
    unfolding parse_basetype parse_get_consttype
    parse_basetype-Gives same =
        Gives-then_less if_true_one _ _ if_some_one
          (Gives-peek if_some_one _ λ tk. Gives-peek_obj if_some_one _ λ obj. const-Gives tk obj)
          λ obj a le. lower-Gives a (omega arith) (base_const-Gives same obj)
