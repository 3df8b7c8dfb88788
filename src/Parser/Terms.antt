-- ===== src/Parser/Terms.antt =====
-- The parts of an expression: names, literals, parentheses, signs and `not`.
use mathlib.Core.Path.{subst}
use mathlib.Core.List.{append-nil}
use python_lite.Base.{
  ℕ, ◌≤◌, ◌≡◌, refl, sym, ap, ◌∙◌, inl, inr, ◌⊎◌, List, [], ◌∷◌, ◌++◌, Bool, true, false, Option,
  some, arith, if◌then◌else◌, if_true, if_false, Bool-cases,
}
use python_lite.Lexer.Token.{tk_name}
use python_lite.Vm.Codes.{
  Instruction, build_ins, bc_load_val, bc_load_val_, bc_loadconst, bc_loadnone,
}
use python_lite.Parser.State.{
  Token, Const, none_obj, bool_obj, value, fraction, lambda_name, base_exception, params, code,
  ParserState, done, M, ◌>>=◌, ◌>>◌, return, get, next, lval_check_valid, lval_check_judge,
}
use python_lite.Parser.Emit.{write_ins, sload_const, store_const}
use python_lite.Parser.Containers.{base_const, const_switch, parse_get_consttype, parse_basetype}
use python_lite.Parser.Suffix.{parse_try_suffix}
use python_lite.Parser.Expr.{
  t_switch, t_body, t_suffix, name_t, parse_try_t, parse_try_expr, parse_try_expr10, parse_level,
}
use python_lite.Parser.Grammar.{
  Tree, name, literal, Literal, int, float, string, bytes, true_lit, false_lit, none_lit,
}
use python_lite.Parser.Levels.{bound}
use python_lite.Parser.Eventually.{
  Eventually, Eventually-suc, Eventually-always, Eventually-bind, bind_done,
}
use python_lite.Parser.Compiles.{Holds, Compiles, loads, loads_none, loads_const, Compiles-append}
use python_lite.Parser.Steps.{
  At, After, After-trans, Stays, Stays-trans, stepped, stepped-After, write_ins-Stays, judge-Stays,
}
use python_lite.Parser.Stored.{store_const-IsStored}
use python_lite.Parser.Reading.{step_over, parse_try_suffix-ends}

module _ (same : Const → Const → Bool) where
  -- From some fuel on `m` returns `a`, behind the tokens of `e`, with the code of `e` written.
  pub record Goes {ℓ} {A : Type ℓ} (m : ℕ → M A) (a : A) (e : Tree) (u : Token)
      (more : List (Option Token)) (s : ParserState) : Type ℓ where
    pub end : ParserState
    pub added : List Const
    pub written : List Instruction
    pub runs : Eventually (λ n. m n s) (done a end)
    pub changes : After u more added written s end
    pub compiles : Compiles same end.info.code.const_val e written

  -- Code that is written already stays the code of its tree.
  pub still :
      {u : Token} {more : List (Option Token)} {added : List Const} {c w : List Instruction}
      {s s' : ParserState} {e : Tree}
      → After u more added c s s'
      → Compiles same s.info.code.const_val e w
      → Compiles same s'.info.code.const_val e w
  still {added} {w} {s} {e} h k =
      subst (λ l. Compiles same l e w) (sym h.consts)
        (Compiles-append same s.info.code.const_val added k)

  -- A term ends where nothing of it follows.
  pub term_ends :
      (v : ℕ) (s s' : ParserState)
      → s.token.val ≡ v
      → 1 ≤ bound s'.token.val
      → Eventually
          (λ n.
            t_switch same n
              (parse_try_expr same n)
              (parse_try_expr10 same n)
              (parse_level same n)
              v
              s)
          (done true s')
      → Eventually (λ n. parse_try_t same n s) (done true s')
  unfolding parse_try_t t_body
  term_ends v s s' e le h =
      Eventually-suc (λ n. parse_try_t same n s) _ (λ n. refl)
        (Eventually-bind
          (λ n.
            t_switch same n (parse_try_expr same n) (parse_try_expr10 same n) (parse_level same n)
              s.token.val)
          (λ n. t_suffix same n (parse_try_expr same n)) s
          (let (enough, k) = h in
            (
              enough,
              λ n p.
                  ap
                    (λ w.
                      t_switch same n (parse_try_expr same n) (parse_try_expr10 same n)
                        (parse_level same n) w s)
                    e
                  ∙ k n p,
            ))
          (Eventually-bind (λ n. parse_try_suffix same (parse_try_expr same n) n false)
            (λ n b. return true) s' (parse_try_suffix-ends same (parse_try_expr same) s' le)
            (Eventually-always λ n. refl)))

  module _ (reflexive : (c : Const) → same c c ≡ true) where
    name_bc : ParserState → ℕ
    name_bc s = if lval_check_valid s then bc_load_val_ else bc_load_val

    name_bc-cases : (s : ParserState) → (name_bc s ≡ bc_load_val) ⊎ (name_bc s ≡ bc_load_val_)
    unfolding name_bc
    name_bc-cases s = elim (Bool-cases (lval_check_valid s)) [
      | inl e ↦ inr (if_true (lval_check_valid s) bc_load_val_ bc_load_val e)
      | inr e ↦ inl (if_false (lval_check_valid s) bc_load_val_ bc_load_val e)
    ]

    pub named-Goes :
        (t u : Token) (rest : List (Option Token)) (s : ParserState)
        → t.val ≡ tk_name
        → At (t ∷ []) u rest s
        → 1 ≤ bound u.val
        → Goes (parse_try_t same) true (name t.obj) u rest s
    unfolding t_switch name_t name_bc
    named-Goes t u rest s e at le =
        let s1 = stepped u rest s in
        let (i, s2, added, e2, h2, holds) =
          store_const-IsStored same reflexive (value s.token.obj) s1 in
        let (s3, e3, h3) = write_ins-Stays (name_bc s2) 0 i s2 in
        let changes = Stays-trans (After-trans (stepped-After u rest s) h2) h3 in
        record {
          end = s3;
          added = added ++ [];
          written = build_ins (name_bc s2) 0 i ∷ [];
          runs =
              term_ends tk_name s s3 (ap (λ w. w.val) at.token ∙ e)
                (ground (arith, ap (λ (w : Token). bound w.val) changes.token))
                (Eventually-always λ n.
                  bind_done (name_t same) (λ x. return true) s
                    (bind_done next
                        (λ x. store_const same (value s.token.obj) >>= λ i.
                          get >>= λ ps. write_ins (name_bc ps) 0 i)
                        s (step_over t [] u rest s at)
                      ∙ bind_done (store_const same (value s.token.obj))
                          (λ i. get >>= λ ps. write_ins (name_bc ps) 0 i) s1 e2
                      ∙ e3));
          changes = changes;
          compiles = still h3 (
              loads i t.obj (name_bc s2)
                (subst (λ (w : Token). Holds same s2.info.code.const_val i (value w.obj)) at.token
                  holds)
                (name_bc-cases s2));
        }

    -- `sload_const` writes the code of a literal.
    abbrev Loads : Const → ParserState → M (Unit {0}) → Type 0
    Loads c s m =
        (s' : ParserState) × (added : List Const) × (w : List Instruction) × (m s ≡ done tt s')
        × Stays added w s s'
        × Compiles same s'.info.code.const_val (literal c) w

    abbrev store_and_load : Const → M (Unit {0})
    store_and_load c = do i ← store_const same c; write_ins bc_loadconst 0 i

    store_and_load-Loads : (c : Const) (s : ParserState) → Loads c s (store_and_load c)
    store_and_load-Loads c s =
        let (i, s2, added, e2, h2, holds) = store_const-IsStored same reflexive c s in
        let (s3, e3, h3) = write_ins-Stays bc_loadconst 0 i s2 in
        (
          s3,
          added ++ [],
          build_ins bc_loadconst 0 i ∷ [],
          bind_done (store_const same c) (λ i. write_ins bc_loadconst 0 i) s e2 ∙ e3,
          Stays-trans h2 h3,
          still h3 (loads_const i c holds),
        )

    sload_const-Loads : (c : Const) (s : ParserState) → Loads c s (sload_const same c)
    unfolding sload_const
    sload_const-Loads none_obj s =
        let (s3, e3, h3) = write_ins-Stays bc_loadnone 0 0 s in
        (s3, [], build_ins bc_loadnone 0 0 ∷ [], e3, h3, loads_none)
    sload_const-Loads (bool_obj b) s = store_and_load-Loads (bool_obj b) s
    sload_const-Loads (value x) s = store_and_load-Loads (value x) s
    sload_const-Loads (fraction x) s = store_and_load-Loads (fraction x) s
    sload_const-Loads lambda_name s = store_and_load-Loads lambda_name s
    sload_const-Loads base_exception s = store_and_load-Loads base_exception s
    sload_const-Loads (params l) s = store_and_load-Loads (params l) s
    sload_const-Loads (code k) s = store_and_load-Loads (code k) s

    -- What `parse_get_consttype` returns at a literal, and that `parse_try_t` goes to it.
    const_switch-Literal :
        (t : Token) (c : Const) (s s1 : ParserState)
        → Literal t c
        → next s ≡ done tt s1
        → const_switch t.val t.obj s ≡ done (some c) s1
    unfolding const_switch
    const_switch-Literal t c s s1 (int e) h =
        ap (λ v. const_switch v t.obj s) e ∙ bind_done next (λ x. return (some (value t.obj))) s h
    const_switch-Literal t c s s1 (float e) h =
        ap (λ v. const_switch v t.obj s) e ∙ bind_done next (λ x. return (some (value t.obj))) s h
    const_switch-Literal t c s s1 (string e) h =
        ap (λ v. const_switch v t.obj s) e ∙ bind_done next (λ x. return (some (value t.obj))) s h
    const_switch-Literal t c s s1 (bytes e) h =
        ap (λ v. const_switch v t.obj s) e ∙ bind_done next (λ x. return (some (value t.obj))) s h
    const_switch-Literal t c s s1 (true_lit e) h =
        ap (λ v. const_switch v t.obj s) e ∙ bind_done next (λ x. return (some (bool_obj true))) s h
    const_switch-Literal t c s s1 (false_lit e) h =
        ap (λ v. const_switch v t.obj s) e
        ∙ bind_done next (λ x. return (some (bool_obj false))) s h
    const_switch-Literal t c s s1 (none_lit e) h =
        ap (λ v. const_switch v t.obj s) e ∙ bind_done next (λ x. return (some none_obj)) s h

    t_switch-Literal :
        (t : Token) (c : Const) (n : ℕ) (x y : M Bool) (z : ℕ → M (Unit {0}))
        → Literal t c
        → t_switch same n x y z t.val ≡ parse_basetype x same n
    unfolding t_switch
    t_switch-Literal t c n x y z (int e) = ap (t_switch same n x y z) e
    t_switch-Literal t c n x y z (float e) = ap (t_switch same n x y z) e
    t_switch-Literal t c n x y z (string e) = ap (t_switch same n x y z) e
    t_switch-Literal t c n x y z (bytes e) = ap (t_switch same n x y z) e
    t_switch-Literal t c n x y z (true_lit e) = ap (t_switch same n x y z) e
    t_switch-Literal t c n x y z (false_lit e) = ap (t_switch same n x y z) e
    t_switch-Literal t c n x y z (none_lit e) = ap (t_switch same n x y z) e

    pub constant-Goes :
        (t u : Token) (c : Const) (rest : List (Option Token)) (s : ParserState)
        → Literal t c
        → At (t ∷ []) u rest s
        → 1 ≤ bound u.val
        → Goes (parse_try_t same) true (literal c) u rest s
    unfolding parse_basetype parse_get_consttype
    constant-Goes t u c rest s l at le =
        let s1 = stepped u rest s in
        let (s2, added, w, e2, h2, k) = sload_const-Loads c s1 in
        let (b, s3, e3, h3) = judge-Stays s2 in
        let changes = Stays-trans (Stays-trans (stepped-After u rest s) h2) h3 in
        let found : parse_get_consttype s ≡ done (some c) s1 =
          ap (λ (v : Token). const_switch v.val v.obj s) at.token
          ∙ const_switch-Literal t c s s1 l (step_over t [] u rest s at) in
        record {
          end = s3;
          added = added ++ [];
          written = w ++ [];
          runs =
              term_ends t.val s s3 (ap (λ v. v.val) at.token)
                (ground (arith, ap (λ (v : Token). bound v.val) changes.token))
                (Eventually-always λ n.
                  ap (λ (m : M Bool). m s) (t_switch-Literal t c n _ _ _ l)
                  ∙ bind_done parse_get_consttype (base_const (parse_try_expr same n) same n) s
                      found
                  ∙ bind_done (sload_const same c) (λ x. lval_check_judge false >> return true) s1
                      e2
                  ∙ bind_done (lval_check_judge false) (λ x. return true) s2 e3);
          changes = changes;
          compiles = rw append-nil (still h3 k);
        }
