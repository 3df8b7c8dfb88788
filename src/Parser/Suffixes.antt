-- ===== src/Parser/Suffixes.antt =====
-- The contract of `parse_try_suffix`.
use python_lite.Base.{
  ℕ, zero, suc, ◌+◌, ◌-◌, ◌<◌, ◌≡◌, refl, Bool, true, false, Option, none, some, ◌==◌, ◌||◌, arith,
  if◌then◌else◌,
}
use python_lite.Lexer.Token.{tk_name, tk_op_pow}
use python_lite.Vm.Codes.{
  bc_get_attr, bc_get_attr_, bc_get_slice, bc_get_slice_, bc_get_item, bc_get_item_, bc_call,
  bc_unpack_arg, bc_dict_combine, bc_new_obj, type_dict,
}
use python_lite.Parser.State.{
  Const, value, M, invalid_syntax, keyword_cant_be_an_expr, next, lval_check_judge,
}
use python_lite.Parser.Emit.{write_ins}
use python_lite.Parser.Suffix.{
  write_judged, attr_suffix, slice_final, slice_step, slice_end, item_suffix, kwargs_loop,
  kwargs_given, Argument, positional, keywords, name_argument, argument, after_argument, args_loop,
  call_unpack_dict, method_trigger, call_suffix, parse_try_suffix,
}
use python_lite.Parser.Contract.{Safe, next_any-Safe}
use python_lite.Parser.Rules.{
  Enough, no_fuel, fuel_below, peeks, peek_objs, gets, branch, fails, forget, returns, then_,
  then_less,
}
use python_lite.Parser.Results.{Tries, try_then, lower_try}
use python_lite.Parser.Writes.{
  ne_end, reads, accept-Safe, write_ins-Safe, store_const-Safe, sload_const-Safe, sload_none-Safe,
  lval_check_judge-Safe, opcode_top-Safe, opcode_change_top-Safe, is_placeholder_code,
}
use python_lite.Parser.Literals.{
  parse_expr-Safe, parse_expr-Safe_one, no_tuple-Safe, tuple_off-Safe,
}

write_judged-Safe :
    {F : Type 0} {c : Option ℕ} {b : ℕ} (marked plain extra : ℕ)
    → is_placeholder_code marked ≡ false
    → is_placeholder_code plain ≡ false
    → Safe F c b 0 (write_judged marked plain extra)
unfolding lval_check_judge write_ins
write_judged-Safe {F} {b} marked plain extra p q = then_ _ _ (lval_check_judge-Safe true) either
  where
    either : (v : Bool) → Safe F none b 0 (write_ins (if v then marked else plain) 0 extra)
    either true = write_ins-Safe marked 0 extra p
    either false = write_ins-Safe plain 0 extra q

-- In the functions that read a token first, `try_expr` is called with less than `b` tokens left.
module _ (same : Const → Const → Bool) (try_expr : M Bool) {F : Type 0} where
  attr_suffix-Safe : {b tk : ℕ} → (tk == b'.') ≡ true → Safe F (some tk) b 1 (attr_suffix same)
  unfolding attr_suffix
  attr_suffix-Safe e = reads _ (ne_end b'.' refl e) refl λ a lt. peeks _ λ tk. peek_objs _ λ obj.
      then_ _ _
        (branch (tk == tk_name)
          (λ _.
            then_ _ _ (store_const-Safe same (value obj))
              λ i. write_judged-Safe bc_get_attr_ bc_get_attr i refl refl)
          (λ _. returns tt))
        λ _. accept-Safe tk_name refl refl

  module _ {b : ℕ} (try_ok : Tries F b try_expr) where
    slice_final-Safe : Safe F none b 0 (slice_final same try_expr)
    unfolding slice_final
    slice_final-Safe = write_judged-Safe bc_get_slice_ bc_get_slice 0 refl refl

    slice_step-Safe : Safe F none b 0 (slice_step same try_expr)
    unfolding slice_step
    slice_step-Safe = peeks _ λ tk.
        branch (tk == b']')
          (λ _. then_ _ _ next_any-Safe λ _. then_ _ _ sload_none-Safe λ _. slice_final-Safe)
          (λ _.
            then_ _ _ (parse_expr-Safe try_expr try_ok)
              λ _. then_ _ _ (accept-Safe b']' refl refl) λ _. slice_final-Safe)

    slice_end-Safe : Safe F none b 0 (slice_end same try_expr)
    unfolding slice_end
    slice_end-Safe = peeks _ λ tk.
        branch (tk == b']')
          (λ _.
            then_ _ _ next_any-Safe
              λ _. then_ _ _ sload_none-Safe λ _. then_ _ _ sload_none-Safe λ _. slice_final-Safe)
          λ _.
            branch (tk == b':')
              (λ _. then_ _ _ next_any-Safe λ _. then_ _ _ sload_none-Safe λ _. slice_step-Safe)
              λ _. then_ _ _ (parse_expr-Safe try_expr try_ok) λ _. peeks _ λ tk'.
                branch (tk' == b']')
                  (λ _.
                    then_ _ _ next_any-Safe λ _. then_ _ _ sload_none-Safe λ _. slice_final-Safe)
                  λ _.
                    branch (tk' == b':') (λ _. then_ _ _ next_any-Safe λ _. slice_step-Safe)
                      λ _. forget _ slice_step-Safe

  item_suffix-Safe :
      {b tk : ℕ}
      → ((a : ℕ) → a < b → Tries F a try_expr)
      → (tk == b'[') ≡ true
      → Safe F (some tk) b 1 (item_suffix same try_expr)
  unfolding item_suffix
  item_suffix-Safe below e = reads _ (ne_end b'[' refl e) refl λ a lt. peeks _ λ tk.
      branch (tk == b':')
        (λ _.
          then_ _ _ next_any-Safe λ _. then_ _ _ sload_none-Safe λ _. slice_end-Safe (below a lt))
        λ _. then_ _ _ (parse_expr-Safe try_expr (below a lt)) λ _. peeks _ λ tk'.
          branch (tk' == b':') (λ _. then_ _ _ next_any-Safe λ _. slice_end-Safe (below a lt))
            (λ _.
              then_ _ _ (accept-Safe b']' refl refl)
                λ _. write_judged-Safe bc_get_item_ bc_get_item 0 refl refl)

  kwargs_loop-Safe :
      (n num b : ℕ)
      → Enough F b n
      → Tries F b try_expr
      → Safe F none b 0 (kwargs_loop same try_expr n num)
  unfolding kwargs_loop
  kwargs_loop-Safe zero num b enough try_ok = no_fuel enough λ s. refl
  kwargs_loop-Safe (suc n) num b enough try_ok = record {
    run =
        (peeks {c = none} _ λ tk.
          branch (tk == b',')
            (λ e. reads _ (ne_end b',' refl e) refl λ a lt. peeks _ λ tk'.
              branch (tk' == tk_name)
                (λ _.
                  let below = lower_try a (omega arith) try_ok in
                  peek_objs _ λ obj. then_ _ _ (sload_const-Safe same (value obj)) λ _.
                    then_ _ _ next_any-Safe λ _. then_ _ _ (accept-Safe b'=' refl refl) λ _.
                      then_ _ _ (parse_expr-Safe try_expr below)
                        λ _. kwargs_loop-Safe n (num + 1) a (fuel_below enough lt) below)
                (λ _. returns num))
            (λ _. returns num)).run;
  }

  module _ (n b : ℕ) (enough : Enough F b n) (try_ok : Tries F b try_expr) where
    kwargs_given-Safe : {c : Option ℕ} → Safe F c b 0 (kwargs_given same try_expr n)
    unfolding kwargs_given
    kwargs_given-Safe = then_ _ _ next_any-Safe λ _.
        then_ _ _ (opcode_change_top-Safe _ λ ins e. cc) λ _.
          then_ _ _ (parse_expr-Safe try_expr try_ok) λ _.
            then_ _ _ (kwargs_loop-Safe n 1 b enough try_ok)
              λ num. then_ _ _ (write_ins-Safe bc_new_obj type_dict num refl) λ _. returns num

  module _ (n b : ℕ) (enough : Enough F b (suc n)) (try_ok : Tries F b try_expr) where
    name_argument-Safe : {c : Option ℕ} → Safe F c b 1 (name_argument same try_expr n)
    unfolding name_argument
    name_argument-Safe = gets _ λ before.
        then_less _ _ (parse_expr-Safe_one try_expr try_ok) refl λ a lt _. gets _ λ after.
          branch (after.token.val == b'=')
            (λ _.
              branch (after.token_count - before.token_count == 1)
                (λ _.
                  then_ _ _
                    (kwargs_given-Safe n a (fuel_below enough lt)
                      (lower_try a (omega arith) try_ok))
                    λ num. returns (keywords num))
                (λ _. fails keyword_cant_be_an_expr))
            (λ _. returns (positional 1))

    argument-Safe : (tk : ℕ) → Safe F (some tk) b 1 (argument same try_expr n tk)
    unfolding argument
    argument-Safe tk =
        branch (tk == b'*')
          (λ e. reads _ (ne_end b'*' refl e) refl λ a lt.
            try_then _ (lower_try a (omega arith) try_ok) _ λ ok.
              branch ok
                (λ _. then_ _ _ (write_ins-Safe bc_unpack_arg 0 0 refl) λ _. returns (positional 0))
                (λ _. fails invalid_syntax))
          λ _.
            branch (tk == tk_name) (λ _. name_argument-Safe)
              λ _.
                then_less _ _ (parse_expr-Safe_one try_expr try_ok) refl
                  λ a lt _. returns (positional 1)

  after_argument-Safe :
      {b : ℕ} (more : ℕ → M (ℕ × ℕ)) (num : ℕ)
      → ((k : ℕ) → Safe F none b 0 (more k))
      → (x : Argument same try_expr) → Safe F none b 0 (after_argument same try_expr more num x)
  unfolding next
  after_argument-Safe more num h (keywords num_kwargs) = returns (num, num_kwargs)
  after_argument-Safe more num h (positional k) = peeks _ λ tk.
      then_ _ _ (branch (tk == b',') (λ _. next_any-Safe) (λ _. returns tt))
        λ _. peeks _ λ tk'. branch (tk' == b')') (λ _. returns (num + k, 0)) (λ _. forget _ (h k))

  args_loop-Safe :
      (n num b : ℕ)
      → Enough F b n
      → Tries F b try_expr
      → Safe F none b 0 (args_loop same try_expr n num)
  unfolding args_loop
  args_loop-Safe zero num b enough try_ok = no_fuel enough λ s. refl
  args_loop-Safe (suc n) num b enough try_ok = record {
    run =
        (peeks {c = none} _ λ tk.
          branch (tk == tk_op_pow) (λ _. returns (num, 0))
            (λ _. then_less _ _ (argument-Safe n b enough try_ok tk) refl λ a lt x.
              after_argument-Safe _ num
                (λ k.
                  args_loop-Safe n (num + k) a (fuel_below enough lt)
                    (lower_try a (omega arith) try_ok))
                x)).run;
  }

  call_unpack_dict-Safe :
      {b : ℕ}
      → Tries F b try_expr
      → (old : Bool) (num num_kwargs : ℕ) {c : Option ℕ}
      → Safe F c b 0 (call_unpack_dict same try_expr old num num_kwargs)
  unfolding call_unpack_dict
  call_unpack_dict-Safe try_ok old num num_kwargs = peeks _ λ tk.
      then_ _ _
        (branch (tk == tk_op_pow)
          (λ _. then_ _ _ next_any-Safe λ _. then_ _ _ (parse_expr-Safe try_expr try_ok) λ _.
            then_ _ _
              (branch (num_kwargs == 0) (λ _. returns tt)
                (λ _. write_ins-Safe bc_dict_combine 0 0 refl))
              λ _. peeks _ λ tk'.
                then_ _ _ (branch (tk' == b',') (λ _. next_any-Safe) (λ _. returns tt))
                  λ _. returns 1)
          (λ _. returns num_kwargs))
        λ given. then_ _ _ (accept-Safe b')' refl refl) λ _.
          then_ _ _ (lval_check_judge-Safe false) λ _.
            then_ _ _ (write_ins-Safe bc_call (if given == 0 then 0 else 1) num refl)
              λ _. no_tuple-Safe old

  call_suffix-Safe :
      (n b : ℕ) {tk : ℕ}
      → Enough F b (suc n)
      → ((a : ℕ) → a < b → Tries F a try_expr)
      → (tk == b'(') ≡ true
      → Safe F (some tk) b 1 (call_suffix same try_expr n)
  unfolding call_suffix method_trigger
  call_suffix-Safe n b enough below e = reads _ (ne_end b'(' refl e) refl λ a lt.
      then_ _ _ opcode_top-Safe λ ins.
        then_ _ _
          (branch (ins.code == bc_get_attr || ins.code == bc_get_attr_)
            (λ _. opcode_change_top-Safe _ λ top p. (p, refl)) (λ _. returns tt))
          λ _. then_ _ _ tuple_off-Safe λ old. peeks _ λ tk'.
            branch (tk' == b')') (λ _. call_unpack_dict-Safe (below a lt) old 0 0)
              (λ _.
                then_ _ _ (forget _ (args_loop-Safe n 0 a (fuel_below enough lt) (below a lt)))
                  λ p. call_unpack_dict-Safe (below a lt) old p.0 p.1)

  pub parse_try_suffix-Safe :
      (n b : ℕ) (accepted : Bool)
      → Enough F b n
      → ((a : ℕ) → a < b → Tries F a try_expr)
      → Safe F none b 0 (parse_try_suffix same try_expr n accepted)
  unfolding parse_try_suffix
  parse_try_suffix-Safe zero b accepted enough below = no_fuel enough λ s. refl
  parse_try_suffix-Safe (suc n) b accepted enough below = record {
    run =
        (peeks {c = none} _ λ tk.
          branch (tk == b'.')
            (λ e. then_less _ _ (attr_suffix-Safe e) refl λ a lt _.
              parse_try_suffix-Safe n a true (fuel_below enough lt)
                λ a' lt'. below a' (omega arith))
            λ _.
              branch (tk == b'[')
                (λ e. then_less _ _ (item_suffix-Safe below e) refl λ a lt _.
                  parse_try_suffix-Safe n a true (fuel_below enough lt)
                    λ a' lt'. below a' (omega arith))
                λ _.
                  branch (tk == b'(')
                    (λ e. then_less _ _ (call_suffix-Safe n b enough below e) refl λ a lt _.
                      parse_try_suffix-Safe n a accepted (fuel_below enough lt)
                        λ a' lt'. below a' (omega arith))
                    λ _. returns accepted).run;
  }
