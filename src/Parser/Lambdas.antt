-- ===== src/Parser/Lambdas.antt =====
-- The contract of parameters and of `parse_lambda`.
use python_lite.Base.{
  ℕ, zero, suc, ◌+◌, ◌≤◌, ◌<◌, ◌≡◌, refl, ◌∙◌, Bool, true, false, not, List, [], ◌∷◌, Option, none,
  some, leb, ◌==◌, ◌||◌, ◌&&◌, arith, ap, length,
}
use python_lite.Lexer.Token.{tk_name, tk_op_pow, tk_kw_lambda}
use python_lite.Vm.Codes.{bc_ret, bc_new_obj, bc_loadnone, type_dict, type_function}
use python_lite.Parser.State.{
  Const, none_obj, value, lambda_name, params, M, ParserState, ParserInfo, invalid_syntax,
  non_default_arg_follow_default_arg,
}
use python_lite.Parser.Emit.{
  func_push, func_pop, pop_info, func_scope_check, close, scope_loop, store_args,
}
use python_lite.Parser.Params.{
  Params, Round, name_param, star_param, power_param, param_step, params_loop, parse_func_params,
  function_body, make_function, lambda_params, parse_lambda, return_params, missing_default, is_set,
  name_const,
}
use python_lite.Parser.Contract.{
  left, Keeps, Ends, Ends-bind, Ends-after, returned, unset, Safe, next_any-Safe,
}
use python_lite.Parser.Rules.{
  Enough, no_fuel, fuel_below, peeks, peek_objs, gets, branch, fails, forget, returns, then_,
  then_less,
}
use python_lite.Parser.Results.{
  Tries, Gives, gives, Gives-return, Gives-branch, Gives-peek, Gives-peek_obj, Gives-less,
  if_true_one,
}
use python_lite.Parser.Writes.{
  ne_end, reads, accept-Safe, write_ins-Safe, sload_const-Safe, flags-Safe, Keeps-code,
}
use python_lite.Parser.Literals.{parse_expr-Safe, parse_expr_without_tuple_parse-Safe}

return_params-Safe : {F : Type 0} {c : Option ℕ} {b : ℕ} (x : Bool) → Safe F c b 0 (return_params x)
return_params-Safe x = flags-Safe _ λ s. (refl, refl, refl, refl, refl, refl)

-- One token at least is read where the loop goes on.
abbrev goes_on : Round → ℕ
goes_on r = if_true_one r.0

goes_on_one : (r : Round) → leb (goes_on r) 1 ≡ true
goes_on_one (true, p) = refl
goes_on_one (false, p) = refl

goes_on_lt : (more : Bool) {a b : ℕ} → more ≡ true → a + if_true_one more ≤ b → a < b
goes_on_lt true e le = omega arith
goes_on_lt false e le = cc

module _ (same : Const → Const → Bool) where
  pub func_scope_check-Safe :
      {F : Type 0} {c : Option ℕ} {b : ℕ} (args : List ℕ)
      → Safe F c b 0 (func_scope_check same args)
  unfolding func_scope_check
  func_scope_check-Safe {F} args = record {
    run = λ s known le. closed s (
        scope_loop same s.info.code.const_val s.info.code.opcodes
          (some (store_args same args [], [])));
  }
    where
      closed :
          (s : ParserState) (r : Option (List Const)) → Ends F (λ _. Keeps 0 s) (close same r s)
      closed s none = unset
      closed s (some upvalue) =
          returned (Keeps-code s (λ c. record c { closure = upvalue }) (omega arith) (λ bound h. h))

  abbrev entered : ParserState → ParserState
  entered s = record s {
    info = record {
      loop_depth = 0;
      code = record { const_val = []; closure = []; opcodes = []; lnotab = [] };
    };
    prev = s.info ∷ s.prev;
  }

  -- Behind a function the code goes on where it was.
  func_pop-back :
      {F : Type 0} (s u : ParserState) (prev : List ParserInfo)
      → u.prev ≡ prev
      → prev ≡ s.info ∷ s.prev
      → left u ≤ left s
      → u.lval_check.startcode ≡ s.lval_check.startcode
      → u.lval_check.bc_cache ≡ s.lval_check.bc_cache
      → Ends F (λ _. Keeps 0 s) (pop_info prev u)
  func_pop-back s u [] e f le startcode cache = cc
  func_pop-back s u (info ∷ prev) e f le startcode cache =
      let same_info : info ≡ s.info = cc in
      returned (record {
        reads = omega arith;
        depth = ap (λ (i : ParserInfo). i.loop_depth) same_info;
        around = cc;
        startcode = startcode;
        cache = cache;
        grows = omega (arith, ap (λ (i : ParserInfo). length i.code.opcodes) same_info);
        bounded = λ bound h. rw same_info h;
      })

  module _ (try_expr : M Bool) {F : Type 0} where
    function_body-Safe :
        {c : Option ℕ} {b : ℕ} (disable : Bool) (body : M (Unit {0})) (names : List ℕ)
        → Safe F none b 0 body
        → Safe F c b 0 (function_body same try_expr disable body names)
    unfolding function_body func_push func_pop
    function_body-Safe disable body names body_ok = gets _ λ ps.
        then_ _ _ (return_params-Safe disable) λ _. record {
          run = λ s known le. Ends-bind _ (body_ok.run (entered s) tt (omega arith)) λ _ t keeps.
              Ends-bind _
                ((func_scope_check-Safe {c = none} {b = left s} names).run t tt
                  (omega (arith, keeps.reads)))
                λ _ u more.
                  Ends-bind _
                    (func_pop-back s u u.prev refl (more.around ∙ keeps.around)
                      (omega (arith, keeps.reads, more.reads)) (more.startcode ∙ keeps.startcode)
                      (more.cache ∙ keeps.cache))
                    λ obj v back. Ends-after back (omega arith) (
                      (then_ {c = none} {b = left s} _ _
                          (return_params-Safe ps.disable_return_parse) λ _. returns obj).run
                        v tt (omega (arith, back.reads)));
        }

    make_function-Safe :
        {c : Option ℕ} {b : ℕ} (name obj : Const) (p : Params)
        → Safe F c b 0 (make_function same try_expr name obj p)
    unfolding make_function
    make_function-Safe name obj p = then_ _ _ (sload_const-Safe same name) λ _.
        then_ _ _ (sload_const-Safe same obj) λ _.
          then_ _ _ (sload_const-Safe same (params p.names)) λ _.
            then_ _ _ (sload_const-Safe same (name_const p.args_name)) λ _.
              then_ _ _ (sload_const-Safe same none_obj)
                λ _. write_ins-Safe bc_new_obj type_function 0 refl

    -- What a round of the loop has read: a token, where the loop goes on.
    name_param-Safe :
        {tk b : ℕ} (name : ℕ) (p : Params)
        → ((a : ℕ) → a < b → Tries F a try_expr)
        → (tk == tk_name) ≡ true
        → Safe F (some tk) b 1 (name_param same try_expr name p)
    unfolding name_param
    name_param-Safe name p below e = reads _ (ne_end tk_name refl e) refl λ a lt. peeks _ λ tk'.
        branch (tk' == b'=')
          (λ _. then_ _ _ next_any-Safe λ _. then_ _ _ (sload_const-Safe same (value name)) λ _.
            then_ _ _ (parse_expr_without_tuple_parse-Safe try_expr (below a lt)) λ _.
              peeks _ λ tk''.
                branch (tk'' == b',') (λ _. then_ _ _ next_any-Safe λ _. returns _)
                  (λ _. returns _))
          λ _.
            branch (tk' == b',')
              (λ _.
                branch (missing_default same try_expr p)
                  (λ _. fails non_default_arg_follow_default_arg)
                  (λ _. then_ _ _ next_any-Safe λ _. returns _))
              λ _.
                branch ((tk' == b')' || tk' == b':') && missing_default same try_expr p)
                  (λ _. fails non_default_arg_follow_default_arg) (λ _. returns _)

    star_param-Safe :
        {tk b : ℕ} (p : Params)
        → (tk == b'*') ≡ true
        → Safe F (some tk) b 1 (star_param same try_expr p)
    unfolding star_param
    star_param-Safe p e = reads _ (ne_end b'*' refl e) refl λ a lt. peeks _ λ tk'.
        peek_objs _ λ obj.
          branch (not (tk' == tk_name) || is_set p.args_name) (λ _. fails invalid_syntax)
            (λ _. then_ _ _ next_any-Safe λ _. peeks _ λ tk''.
              branch (tk'' == b',') (λ _. then_ _ _ next_any-Safe λ _. returns _) (λ _. returns _))

    power_param-Safe :
        {tk b : ℕ} (p : Params)
        → (tk == tk_op_pow) ≡ true
        → Safe F (some tk) b 1 (power_param same try_expr p)
    unfolding power_param
    power_param-Safe p e = reads _ (ne_end tk_op_pow refl e) refl λ a lt. peeks _ λ tk'.
        peek_objs _ λ obj.
          branch (tk' == tk_name) (λ _. then_ _ _ next_any-Safe λ _. returns _)
            (λ _. fails invalid_syntax)

    param_step-Gives :
        {b : ℕ} (p : Params)
        → ((a : ℕ) → a < b → Tries F a try_expr)
        → Gives F none b goes_on (param_step same try_expr p)
    unfolding param_step
    param_step-Gives p below = Gives-peek goes_on _ λ tk. Gives-peek_obj goes_on _ λ obj.
        Gives-branch goes_on (tk == tk_name)
          (λ e. gives goes_on _ 1 goes_on_one (name_param-Safe obj _ below e))
          λ _.
            Gives-branch goes_on (tk == b'*')
              (λ e. gives goes_on _ 1 goes_on_one (star_param-Safe p e))
              λ _.
                Gives-branch goes_on (tk == tk_op_pow)
                  (λ e. gives goes_on _ 1 goes_on_one (power_param-Safe p e))
                  λ _. Gives-return goes_on (false, p) refl

    params_loop-Safe :
        (n b : ℕ) (p : Params)
        → Enough F b n
        → ((a : ℕ) → a < b → Tries F a try_expr)
        → Safe F none b 0 (params_loop same try_expr n p)
    unfolding params_loop
    params_loop-Safe zero b p enough below = no_fuel enough λ s. refl
    params_loop-Safe (suc n) b p enough below = record {
      run =
          (Gives-less {c = none} goes_on _ _ (param_step-Gives p below) λ r a le.
            branch r.0
              (λ e.
                let lt : a < b = goes_on_lt r.0 e le in
                params_loop-Safe n a r.1 (fuel_below enough lt) λ a' lt'. below a' (omega arith))
              (λ _. returns r.1)).run;
    }

    pub parse_func_params-Safe :
        (n b : ℕ)
        → Enough F b n
        → ((a : ℕ) → a < b → Tries F a try_expr)
        → {c : Option ℕ} → Safe F c b 0 (parse_func_params same try_expr n)
    unfolding parse_func_params
    parse_func_params-Safe n b enough below =
        then_ _ _ (forget _ (params_loop-Safe n b _ enough below)) λ p.
          peeks _
            λ tk. branch (tk == b',') (λ _. then_ _ _ next_any-Safe λ _. returns p) (λ _. returns p)

    lambda_params-Safe :
        {c : Option ℕ} (n b : ℕ)
        → Enough F b n
        → ((a : ℕ) → a < b → Tries F a try_expr)
        → Safe F c b 0 (lambda_params same try_expr n)
    unfolding lambda_params
    lambda_params-Safe n b enough below = peeks _ λ tk.
        branch (tk == b':') (λ _. then_ _ _ next_any-Safe λ _. returns _)
          (λ _.
            then_ _ _ (parse_func_params-Safe n b enough below)
              λ p. then_ _ _ (accept-Safe b':' refl refl) λ _. returns p)

    pub parse_lambda-Safe :
        {tk : ℕ} (n b : ℕ)
        → Enough F b (suc n)
        → ((a : ℕ) → a < b → Tries F a try_expr)
        → (tk == tk_kw_lambda) ≡ true
        → Safe F (some tk) b 1 (parse_lambda same try_expr n)
    unfolding parse_lambda
    parse_lambda-Safe n b enough below e =
        then_less _ _ (accept-Safe tk_kw_lambda refl refl) refl λ a lt _.
          then_ _ _
            (lambda_params-Safe n a (fuel_below enough lt) (λ a' lt'. below a' (omega arith)))
            λ p.
              then_ _ _
                (function_body-Safe false _ p.names (
                  then_ _ _ (parse_expr-Safe try_expr (below a lt))
                    λ _. write_ins-Safe bc_ret 0 1 refl))
                λ obj.
                  then_ _ _
                    (branch (p.defarg_count == 0) (λ _. write_ins-Safe bc_loadnone 0 0 refl)
                      (λ _. write_ins-Safe bc_new_obj type_dict p.defarg_count refl))
                    λ _. make_function-Safe lambda_name obj p
