-- ===== src/Parser/Powers.antt =====
-- Signs, `not` and powers.
use mathlib.Core.Path.{subst}
use mathlib.Core.List.{append_assoc, append-nil}
use python_lite.Base.{
  ℕ, ◌≤◌, ◌≡◌, refl, sym, ap, ◌∙◌, List, [], ◌∷◌, ◌++◌, Bool, true, arith, ◌==◌, ==_iff,
  if◌then◌else◌, if_true,
}
use python_lite.Lexer.Token.{tk_kw_not, tk_op_pow}
use python_lite.Vm.Ops.{op_not, op_pow}
use python_lite.Vm.Codes.{build_ins, bc_operator}
use python_lite.Parser.State.{
  Token, Const, invalid_syntax, M, ◌>>=◌, ◌>>◌, return, fail, peek, next,
}
use python_lite.Parser.Expr.{
  t_switch, unary_t, not_t, write_op, parse_try_t, parse_try_expr10, parse_level, expr10_body,
  power_rest, parse_expr10, operand,
}
use python_lite.Parser.Grammar.{
  Tree, unary, negation, power, Unary, plus, minus, tilde, unary_token, unary_op,
}
use python_lite.Parser.Levels.{bound}
use python_lite.Parser.Eventually.{Eventually-suc, Eventually-bind, bind_done}
use python_lite.Parser.Compiles.{Compiles, applies, negates, raises}
use python_lite.Parser.Steps.{
  head, tail, queue, queue-head, After-trans, Stays-trans, stepped, next-stepped, stepped-After,
  write_op-Stays,
}
use python_lite.Parser.Reading.{step_over}
use python_lite.Parser.Terms.{still, term_ends}
use python_lite.Parser.Factors.{Parses, sum_at, At-append, factor-Parses}

pow_bound : (t : ℕ) → t ≡ tk_op_pow → 1 ≤ bound t
unfolding bound
pow_bound t h = ground arith

module _ (same : Const → Const → Bool) where
  t_switch-Unary :
      (o : Unary) (n : ℕ) (x y : M Bool) (z : ℕ → M (Unit {0}))
      → t_switch same n x y z (unary_token o) ≡ (unary_t same y (unary_op o) >> return true)
  unfolding t_switch
  t_switch-Unary plus n x y z = refl
  t_switch-Unary minus n x y z = refl
  t_switch-Unary tilde n x y z = refl

  pub signed-Parses :
      (t : Token) (o : Unary) (a : Tree) (ts : List Token)
      → t.val ≡ unary_token o
      → Parses same (parse_try_expr10 same) true a ts 2
      → Parses same (parse_try_t same) true (unary o a) (t ∷ ts) 2
  unfolding unary_t operand
  signed-Parses t o a ts e h u rest s at le off =
      let s1 = stepped (head ts u) (tail ts u rest) s in
      let g = factor-Parses same a ts 2 h u rest s1 (record { token = refl; rest = refl }) le off in
      let (s3, e3, h3) = write_op-Stays (unary_op o) g.end in
      let changes =
        Stays-trans (After-trans (stepped-After (head ts u) (tail ts u rest) s) g.changes) h3 in
      record {
        end = s3;
        added = g.added ++ [];
        written = g.written ++ build_ins bc_operator 0 (unary_op o) ∷ [];
        runs =
            term_ends same (unary_token o) s s3 (ap (λ v. v.val) at.token ∙ e)
              (ground (arith, ap (λ (v : Token). bound v.val) changes.token))
              (let (enough, k) = g.runs in
                (
                  enough,
                  λ n p.
                      ap (λ (m : M Bool). m s) (t_switch-Unary o n _ _ _)
                      ∙ bind_done (unary_t same (parse_try_expr10 same n) (unary_op o))
                          (λ x. return true) s
                          (bind_done next
                              (λ x. parse_expr10 (parse_try_expr10 same n) >> write_op (unary_op o))
                              s (step_over t ts u rest s at)
                            ∙ bind_done (parse_expr10 (parse_try_expr10 same n))
                                (λ x. write_op (unary_op o)) s1 (k n p)
                            ∙ e3),
                ));
        changes = changes;
        compiles = applies o (still same h3 g.compiles);
      }

  -- `not` takes the comparisons behind it.
  pub negated-Parses :
      (t : Token) (a : Tree) (ts : List Token)
      → t.val ≡ tk_kw_not
      → Parses same (sum_at same 7) tt a ts 9
      → Parses same (parse_try_t same) true (negation a) (t ∷ ts) 9
  unfolding not_t t_switch
  negated-Parses t a ts e h u rest s at le off =
      let s1 = stepped (head ts u) (tail ts u rest) s in
      let g = h u rest s1 (record { token = refl; rest = refl }) le off in
      let (s3, e3, h3) = write_op-Stays op_not g.end in
      let changes =
        Stays-trans (After-trans (stepped-After (head ts u) (tail ts u rest) s) g.changes) h3 in
      record {
        end = s3;
        added = g.added ++ [];
        written = g.written ++ build_ins bc_operator 0 op_not ∷ [];
        runs =
            term_ends same tk_kw_not s s3 (ap (λ v. v.val) at.token ∙ e)
              (ground (arith, ap (λ (v : Token). bound v.val) changes.token))
              (let (enough, k) = g.runs in
                (
                  enough,
                  λ n p.
                      bind_done (not_t same (parse_try_expr10 same n) (parse_level same n))
                        (λ x. return true) s
                        (bind_done next (λ x. sum_at same 7 n >> write_op op_not) s
                            (step_over t ts u rest s at)
                          ∙ bind_done (sum_at same 7 n) (λ x. write_op op_not) s1 (k n p)
                          ∙ e3),
                ));
        changes = changes;
        compiles = negates (still same h3 g.compiles);
      }

  pub powered-Parses :
      (t : Token) (a b : Tree) (ts us : List Token)
      → t.val ≡ tk_op_pow
      → Parses same (parse_try_t same) true a ts 1
      → Parses same (parse_try_t same) true b us 1
      → Parses same (parse_try_expr10 same) true (power a b) (ts ++ t ∷ us) 2
  unfolding parse_try_expr10 expr10_body
  powered-Parses t a b ts us e h k u rest s at le off =
      let ga =
        h t (queue us u rest) s (At-append ts (t ∷ us) u rest s at) (pow_bound t.val e) off in
      let s2 = stepped (head us u) (tail us u rest) ga.end in
      let gb =
        k u rest s2 (record { token = refl; rest = refl }) (omega arith) (ga.changes.op_in ∙ off) in
      let (s4, e4, h4) = write_op-Stays op_pow gb.end in
      let changes =
        Stays-trans
          (After-trans (After-trans ga.changes (stepped-After (head us u) (tail us u rest) ga.end))
            gb.changes)
          h4 in
      let move = next-stepped ga.end (ga.changes.rest ∙ queue-head us u rest) in
      record {
        end = s4;
        added = ((ga.added ++ []) ++ gb.added) ++ [];
        written = ((ga.written ++ []) ++ gb.written) ++ build_ins bc_operator 0 op_pow ∷ [];
        runs =
            Eventually-suc (λ n. parse_try_expr10 same n s) _ (λ n. refl)
              (Eventually-bind (parse_try_t same)
                (λ n ok. peek >>= power_rest (parse_try_t same n) ok) s ga.runs
                (let (enough, q) = gb.runs in
                  (
                    enough,
                    λ n p.
                        ap (λ (m : M Bool). m ga.end)
                          (if_true (ga.end.token.val == tk_op_pow) _ _
                            ((==_iff _ _).1 (ap (λ v. v.val) ga.changes.token ∙ e)))
                        ∙ bind_done next
                            (λ x. parse_try_t same n >>= λ ok'.
                              if ok' then (write_op op_pow >> return true) else fail invalid_syntax)
                            ga.end move
                        ∙ bind_done (parse_try_t same n)
                            (λ ok'.
                              if ok' then (write_op op_pow >> return true) else fail invalid_syntax)
                            s2 (q n p)
                        ∙ bind_done (write_op op_pow) (λ x. return true) gb.end e4,
                  )));
        changes = changes;
        compiles =
            subst (Compiles same s4.info.code.const_val (power a b))
              (sym (
                ap (λ l. (l ++ gb.written) ++ build_ins bc_operator 0 op_pow ∷ [])
                  (append-nil ga.written)
                ∙ append_assoc ga.written gb.written (build_ins bc_operator 0 op_pow ∷ [])))
              (raises
                (still same h4 (
                  still same gb.changes
                    (still same (stepped-After (head us u) (tail us u rest) ga.end) ga.compiles)))
                (still same h4 gb.compiles));
      }
