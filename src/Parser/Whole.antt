-- ===== src/Parser/Whole.antt =====
-- `parse_try_expr` and `parse_expr`, from the levels of operators.
use python_lite.Base.{
  ℕ, zero, suc, ◌+◌, ◌-◌, ◌≤◌, ◌≡◌, refl, sym, ap, ◌∙◌, inl, inr, ◌⊎◌, List, Bool, true, false, not,
  ◌&&◌, ◌||◌, Option, arith, ◌==◌, if◌then◌else◌, if_true, if_false, Bool-cases,
}
use python_lite.Parser.State.{
  Token, Const, ParserState, Parse, done, error, undefined, out_of_fuel, invalid_syntax, M, ◌>>=◌,
  ◌>>◌, return, fail,
}
use python_lite.Parser.Containers.{parse_expr, level_down}
use python_lite.Parser.Expr.{
  tuple_rest, parse_try_expr, parse_try_expr10, parse_level, parse_expr10, operand, expr_body,
}
use python_lite.Parser.Grammar.{Tree}
use python_lite.Parser.Levels.{bound}
use python_lite.Parser.Eventually.{Eventually-suc, bind_done}
use python_lite.Parser.Steps.{At}
use python_lite.Parser.Terms.{Goes}
use python_lite.Parser.Factors.{Parses, sum_at}

is_done {ℓ} : {A : Type ℓ} → Parse A → Bool
is_done (done a s) = true
is_done (error e) = false
is_done undefined = false
is_done out_of_fuel = false

done-cases {ℓ} :
    {A : Type ℓ} (r : Parse A)
    → ((a : A) × (s : ParserState) × (r ≡ done a s)) ⊎ (is_done r ≡ false)
unfolding is_done
done-cases (done a s) = inl (a, s, refl)
done-cases (error e) = inr refl
done-cases undefined = inr refl
done-cases out_of_fuel = inr refl

bind-not_done {ℓ κ} :
    {A : Type ℓ} {B : Type κ} (m : M A) (f : A → M B) (s : ParserState)
    → is_done (m s) ≡ false
    → is_done ((m >>= f) s) ≡ false
unfolding is_done
bind-not_done {A} {B} m f s = go (m s)
  where
    go :
        (r : Parse A)
        → is_done r ≡ false
        → is_done (
            let x : Parse B = elim r [
              | done a t ↦ f a t
              | error e ↦ error e
              | undefined ↦ undefined
              | out_of_fuel ↦ out_of_fuel
            ] in
            x)
          ≡ false
    go (done a t) h = cc
    go (error e) h = refl
    go undefined h = refl
    go out_of_fuel h = refl

operand-not_done :
    (first : M (Unit {0})) (level : ℕ → M (Unit {0})) (k : ℕ) (s : ParserState)
    → is_done (first s) ≡ false
    → is_done (operand first level k s) ≡ false
unfolding operand
operand-not_done first level zero s h = h
operand-not_done first level (suc k) s h =
    bind-not_done (operand first level k) (λ x. level k) s (operand-not_done first level k s h)

-- The calls of the levels behind a first call do not depend on what that is.
operand-done :
    (first : M (Unit {0})) (level : ℕ → M (Unit {0})) (k : ℕ) (s s1 : ParserState)
    → first s ≡ done tt s1
    → operand first level k s ≡ operand (return tt) level k s1
unfolding operand
operand-done first level zero s s1 e = e
operand-done first level (suc k) s s1 e =
    ap
      (λ r.
        let x : Parse (Unit {0}) = elim r [
          | done b t ↦ level k t
          | error y ↦ error y
          | undefined ↦ undefined
          | out_of_fuel ↦ out_of_fuel
        ] in
        x)
      (operand-done first level k s s1 e)

module _ (same : Const → Const → Bool) where
  module _ (n : ℕ) (try_expr try_expr10 : M Bool) (level : ℕ → M (Unit {0}))
      (s s' : ParserState) where
    abbrev checked : Bool → M (Unit {0})
    checked ok = if ok then return tt else fail invalid_syntax

    abbrev and_rest : Bool → M Bool
    and_rest ok =
        if ok then (operand (return tt) level 9 >> tuple_rest same n try_expr) else return false

    done_at :
        operand (parse_expr10 try_expr10) level 9 s ≡ done tt s'
        → is_done (parse_expr10 try_expr10 s) ≡ false
        → ⊥
    unfolding is_done
    done_at e h = absurd (cc (ap is_done e, operand-not_done (parse_expr10 try_expr10) level 9 s h))

    expr_body-branch :
        (b : Bool) (s1 : ParserState)
        → try_expr10 s ≡ done b s1
        → operand (parse_expr10 try_expr10) level 9 s ≡ done tt s'
        → tuple_rest same n try_expr s' ≡ done true s'
        → expr_body same n try_expr try_expr10 level s ≡ done true s'
    unfolding expr_body parse_expr10 is_done
    expr_body-branch true s1 d e t =
        bind_done try_expr10 and_rest s d
        ∙ bind_done (operand (return tt) level 9) (λ x. tuple_rest same n try_expr) s1
            (sym (
                operand-done (parse_expr10 try_expr10) level 9 s s1
                  (bind_done try_expr10 checked s d))
              ∙ e)
        ∙ t
    expr_body-branch false s1 d e t =
        absurd (done_at e (ap is_done (bind_done try_expr10 checked s d)))

    -- What `parse_try_expr` and an operand of the loosest level do is the same.
    expr_body-done :
        operand (parse_expr10 try_expr10) level 9 s ≡ done tt s'
        → tuple_rest same n try_expr s' ≡ done true s'
        → expr_body same n try_expr try_expr10 level s ≡ done true s'
    unfolding parse_expr10
    expr_body-done e t = elim (done-cases (try_expr10 s)) [
      | inr h ↦ absurd (done_at e (bind-not_done try_expr10 checked s h))
      | inl (b, s1, d) ↦ expr_body-branch b s1 d e t
    ]

  -- No tuple follows: the next token is no ',', or tuples are switched off.
  abbrev pub NoTuple : Token → ParserState → Type 0
  NoTuple u s = (not s.disable_expr_tuple_parse && u.val == b',') ≡ false

  pub try_expr-Goes :
      (e : Tree) (ts : List Token) (u : Token) (rest : List (Option Token)) (s : ParserState)
      → Parses same (sum_at same 9) tt e ts 11
      → At ts u rest s
      → 11 ≤ bound u.val
      → s.disable_op_in_parse ≡ false
      → NoTuple u s
      → Goes same (parse_try_expr same) true e u rest s
  unfolding parse_try_expr tuple_rest
  try_expr-Goes e ts u rest s h at le off no_comma =
      let g = h u rest s at le off in
      let (enough, k) = g.runs in
      record {
        end = g.end;
        added = g.added;
        written = g.written;
        runs =
            Eventually-suc (λ n. parse_try_expr same n s) _ (λ n. refl)
              (
                enough,
                λ n p.
                    expr_body-done n (parse_try_expr same n) (parse_try_expr10 same n)
                      (parse_level same n) s g.end (k n p)
                      (ap (λ (m : M Bool). m g.end)
                        (if_false (not g.end.disable_expr_tuple_parse && g.end.token.val == b',') _
                          _
                          (ap (λ d. not d && g.end.token.val == b',') g.changes.tuple
                            ∙ ap (λ (v : Token). not s.disable_expr_tuple_parse && v.val == b',')
                                g.changes.token
                            ∙ no_comma))),
              );
        changes = g.changes;
        compiles = g.compiles;
      }

  -- `parse_expr` leaves the level of expressions as it was.
  pub parse_expr-Goes :
      (e : Tree) (ts : List Token) (u : Token) (rest : List (Option Token)) (s : ParserState)
      → Parses same (sum_at same 9) tt e ts 11
      → At ts u rest s
      → 11 ≤ bound u.val
      → s.disable_op_in_parse ≡ false
      → NoTuple u s
      → Goes same (λ n. parse_expr (parse_try_expr same n)) tt e u rest s
  unfolding parse_expr
  parse_expr-Goes e ts u rest s h at le off no_comma =
      elim (Bool-cases (s.token.val == b'[' || s.token.val == b'(')) [
        | inl bracket ↦
            (let g = try_expr-Goes e ts u rest s h at le off no_comma in
              record {
                end = g.end;
                added = g.added;
                written = g.written;
                runs =
                    (let (enough, k) = g.runs in
                      (
                        enough,
                        λ n p.
                            ap (λ (m : M (Unit {0})). m s)
                              (if_true (s.token.val == b'[' || s.token.val == b'(') _ _ bracket)
                            ∙ bind_done (parse_try_expr same n)
                                (λ ok. if ok then return tt else fail invalid_syntax) s (k n p),
                      ));
                changes = g.changes;
                compiles = g.compiles;
              })
        | inr other ↦
            (let up = record s {
              lval_check = record s.lval_check { expr_level = s.lval_check.expr_level + 1 };
            } in
              let g =
                try_expr-Goes e ts u rest up h (record { token = at.token; rest = at.rest }) le off
                  no_comma in
              let down = record g.end {
                lval_check = record g.end.lval_check {
                  expr_level = g.end.lval_check.expr_level - 1;
                };
              } in
              record {
                end = down;
                added = g.added;
                written = g.written;
                runs =
                    (let (enough, k) = g.runs in
                      (
                        enough,
                        λ n p.
                            ap (λ (m : M (Unit {0})). m s)
                              (if_false (s.token.val == b'[' || s.token.val == b'(') _ _ other)
                            ∙ bind_done (parse_try_expr same n)
                                (λ ok. if ok then level_down else fail invalid_syntax) up (k n p),
                      ));
                changes = record {
                  token = g.changes.token;
                  rest = g.changes.rest;
                  consts = g.changes.consts;
                  opcodes = g.changes.opcodes;
                  op_in = g.changes.op_in;
                  tuple = g.changes.tuple;
                  level = omega (arith, g.changes.level);
                };
                compiles = g.compiles;
              })
      ]
