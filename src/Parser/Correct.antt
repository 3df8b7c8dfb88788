-- ===== src/Parser/Correct.antt =====
-- The code of an expression is that of the tree which the levels of its operators give.
use mathlib.Core.Path.{subst}
use python_lite.Base.{
  ℕ, zero, suc, ◌+◌, ◌≤◌, ◌≡◌, sym, List, [], ◌∷◌, Bool, true, false, Option, arith,
}
use python_lite.Lexer.Token.{tk_kw_not}
use python_lite.Parser.State.{Token, Const, ParserState}
use python_lite.Parser.Expr.{parse_try_t, parse_try_expr, parse_try_expr10}
use python_lite.Parser.Grammar.{
  Tree, negation, Term, named, constant, parens, Factor, termed, powered, signed, Sum, factor,
  chain, negated, Chain, stop, more,
}
use python_lite.Parser.Levels.{bound}
use python_lite.Parser.First.{Sum-first, Chain-bound}
use python_lite.Parser.Steps.{At}
use python_lite.Parser.Terms.{Goes, named-Goes, constant-Goes}
use python_lite.Parser.Factors.{Parses, sum_at, termed-Parses, factor-Parses, idle-Parses}
use python_lite.Parser.Powers.{signed-Parses, negated-Parses, powered-Parses}
use python_lite.Parser.Sums.{ChainParses, stop-ChainParses, more-ChainParses, chain-Parses}
use python_lite.Parser.Whole.{NoTuple, try_expr-Goes}
use python_lite.Parser.Parens.{parens-Parses}

module _ (same : Const → Const → Bool) (reflexive : (c : Const) → same c c ≡ true) where
  -- A sum of no level is one of any: its levels are idle.
  idles :
      (e : Tree) (ts : List Token) (i k : ℕ)
      → i + 2 ≤ k
      → Parses same (sum_at same 0) tt e ts k
      → Parses same (sum_at same i) tt e ts k
  idles e ts zero k p h = h
  idles e ts (suc i) k p h =
      idle-Parses same e ts i k (omega arith) (idles e ts i k (omega arith) h)

  -- `not` stands where the sums of level 7 do.
  negated-Sum :
      (k : ℕ) (t : Token) (a : Tree) (ts : List Token)
      → k ≡ 7
      → t.val ≡ tk_kw_not
      → Parses same (sum_at same k) tt a ts (k + 2)
      → Parses same (sum_at same k) tt (negation a) (t ∷ ts) (k + 2)
  negated-Sum k t a ts p q h =
      let at_7 : Parses same (sum_at same 7) tt a ts 9 =
        subst (λ j. Parses same (sum_at same j) tt a ts (j + 2)) p h in
      let made : Parses same (sum_at same 7) tt (negation a) (t ∷ ts) 9 =
        idles (negation a) (t ∷ ts) 7 9 (omega arith) (
          factor-Parses same (negation a) (t ∷ ts) 9 (
            termed-Parses same (negation a) (t ∷ ts) 9 9 (omega arith) (omega arith)
              (negated-Parses same t a ts q at_7))) in
      subst (λ j. Parses same (sum_at same j) tt (negation a) (t ∷ ts) (j + 2)) (sym p) made

  mutual
    Term-Parses :
        {e : Tree} {ts : List Token} → Term e ts → Parses same (parse_try_t same) true e ts 1
    Term-Parses (named t e) = λ u rest s at le off. named-Goes same reflexive t u rest s e at le
    Term-Parses (constant t {c} l) =
        λ u rest s at le off. constant-Goes same reflexive t u c rest s l at le
    Term-Parses (parens t v {e} {ts} p d q) =
        parens-Parses same t v e ts p q (λ u. (Sum-first (v ∷ []) u d).0) (Sum-Parses d)

    Factor-Parses :
        {e : Tree} {ts : List Token} → Factor e ts → Parses same (parse_try_expr10 same) true e ts 2
    Factor-Parses (termed {e} {ts} d) =
        termed-Parses same e ts 1 2 (omega arith) (omega arith) (Term-Parses d)
    Factor-Parses (powered {a} {b} {ts} {us} t d p f) =
        powered-Parses same t a b ts us p (Term-Parses d) (Term-Parses f)
    Factor-Parses (signed t o {a} {ts} p d) =
        termed-Parses same _ (t ∷ ts) 2 2 (omega arith) (omega arith)
          (signed-Parses same t o a ts p (Factor-Parses d))

    Sum-Parses :
        {k : ℕ} {e : Tree} {ts : List Token}
        → Sum k e ts
        → Parses same (sum_at same k) tt e ts (k + 2)
    Sum-Parses (factor {e} {ts} d) = factor-Parses same e ts 2 (Factor-Parses d)
    Sum-Parses (chain {k} {a} {e} {ts} {us} p d c) =
        chain-Parses same k a e ts us (λ u. Chain-bound u c) (Sum-Parses d) (Chain-Parses c)
    Sum-Parses (negated {k} t {a} {ts} p q d) = negated-Sum k t a ts p q (Sum-Parses d)

    Chain-Parses :
        {i : ℕ} {a e : Tree} {ts : List Token} → Chain i a e ts → ChainParses same i a e ts
    Chain-Parses (stop {i} {a}) = stop-ChainParses same i a
    Chain-Parses (more {i} {op} {a} {b} {e} {os} {ts} {us} o d c) =
        more-ChainParses same i op a b e os ts us o (λ u p. (Sum-first us u d).1 (omega arith))
          (λ u. Chain-bound u c) (Sum-Parses d) (Chain-Parses c)

  -- The tokens of an expression, with a token behind them that goes on with none, and with no ','
  -- where tuples are read: with enough fuel `parse_try_expr` accepts them, stops at the token
  -- behind, and appends the code of the tree and its constants; the flags are as before.
  pub parse_try_expr-Goes :
      {e : Tree} {ts : List Token}
      → Sum 9 e ts
      → (u : Token) (rest : List (Option Token)) (s : ParserState) → At ts u rest s
      → bound u.val ≡ 11
      → s.disable_op_in_parse ≡ false
      → NoTuple same u s
      → Goes same (parse_try_expr same) true e u rest s
  parse_try_expr-Goes {e} {ts} d u rest s at le off no_comma =
      try_expr-Goes same e ts u rest s (Sum-Parses d) at (omega (arith, le)) off no_comma
