-- ===== src/Parser/Evaluation.antt =====
-- The parser and the virtual machine together: an expression is worth what its tree is worth.
use python_lite.Base.{ℕ, ◌≤◌, ◌≡◌, List, Bool, true, false, Option, some, arith, length, ◌==◌, ◌||◌}
use python_lite.Lexer.Token.{tk_kw_in, tk_op_le, tk_op_ge, tk_op_ne, tk_op_eq, tk_op_floordiv}
use python_lite.Vm.Operand.{Objects, is_binary}
use python_lite.Vm.Ops.{token_to_op_val}
use python_lite.Vm.Value.{Binaries, eval, Respects}
use python_lite.Vm.Computes.{Computes, Compiles-Computes}
use python_lite.Parser.State.{Token, Const, ParserState}
use python_lite.Parser.Expr.{simple_op, parse_try_expr}
use python_lite.Parser.Grammar.{
  Tree, Spelt, one, is, is_not, not_in, Term, named, constant, parens, Factor, termed, powered,
  signed, Sum, factor, chain, negated, Chain, stop, more,
}
use python_lite.Parser.Levels.{bound}
use python_lite.Parser.Steps.{At}
use python_lite.Parser.Terms.{Goes}
use python_lite.Parser.Whole.{NoTuple}
use python_lite.Parser.Correct.{parse_try_expr-Goes}

-- The operators of the levels 0, 1 and 6.
arith_binary :
    (t : ℕ)
    → (t == b'*'
        || (t == b'@'
            || (t == b'/' || (t == tk_op_floordiv || (t == b'%' || (t == b'+' || t == b'-'))))))
      ≡ true
    → is_binary (token_to_op_val t) ≡ true
unfolding is_binary token_to_op_val
arith_binary t h = ground arith

compare_binary :
    (t : ℕ)
    → (t == tk_kw_in
        || (t == b'<'
            || (t == tk_op_le
                || (t == b'>' || (t == tk_op_ge || (t == tk_op_ne || t == tk_op_eq))))))
      ≡ true
    → is_binary (token_to_op_val t) ≡ true
unfolding is_binary token_to_op_val
compare_binary t h = ground arith

simple_op-binary : (i t op : ℕ) → simple_op i t ≡ some op → is_binary op ≡ true
unfolding simple_op is_binary
simple_op-binary i t op h = ground (arith, arith_binary t, compare_binary t)

Spelt-binary : {i op : ℕ} {os : List Token} → Spelt i op os → is_binary op ≡ true
unfolding is_binary
Spelt-binary {i} {op} (one t e) = simple_op-binary i t.val op e
Spelt-binary (is t e o k) = ground arith
Spelt-binary (is_not t u e o k l) = ground arith
Spelt-binary (not_in t u e o k l) = ground arith

mutual
  Term-Binaries : {e : Tree} {ts : List Token} → Term e ts → Binaries e
  Term-Binaries (named t e) = tt
  Term-Binaries (constant t l) = tt
  Term-Binaries (parens t u e d f) = Sum-Binaries d

  Factor-Binaries : {e : Tree} {ts : List Token} → Factor e ts → Binaries e
  Factor-Binaries (termed d) = Term-Binaries d
  Factor-Binaries (powered t d e f) = (Term-Binaries d, Term-Binaries f)
  Factor-Binaries (signed t o e d) = Factor-Binaries d

  Sum-Binaries : {k : ℕ} {e : Tree} {ts : List Token} → Sum k e ts → Binaries e
  Sum-Binaries (factor d) = Factor-Binaries d
  Sum-Binaries (chain p d c) = Chain-Binaries c (Sum-Binaries d)
  Sum-Binaries (negated t p q d) = Sum-Binaries d

  Chain-Binaries : {i : ℕ} {a e : Tree} {ts : List Token} → Chain i a e ts → Binaries a → Binaries e
  Chain-Binaries stop b = b
  Chain-Binaries (more o d c) b = Chain-Binaries c (Spelt-binary o, b, Sum-Binaries d)

module _ {V E : Type 0} (o : Objects V E) (same : Const → Const → Bool) where
  -- What the machine makes of the code that a parse has appended.
  pub record Evaluates (e : Tree) (u : Token) (more : List (Option Token)) (s : ParserState)
      : Type 0 where
    pub goes : Goes same (parse_try_expr same) true e u more s
    pub computes :
        length goes.end.info.code.const_val ≤ 32768
        → Computes o goes.end.info.code.const_val goes.written (eval o e)

  -- The tokens of an expression of names, literals, parentheses, signs, `**`, the binary operators and
  -- `not`, outside the target of a `for`, where `disable_op_in_parse` is off; with a token behind
  -- them that goes on with none, and with no ',' where tuples are read: with enough fuel `parse_try_expr` accepts them, stops at the token
  -- behind and appends the code of the tree that the levels of the operators give, the flags as
  -- before; and with the constants of the parse, if they are at most 2 ^ 15, that code pushes the
  -- value of the tree on any stack, or stops with the error of the first operation that fails.
  pub parse_try_expr-exec :
      (reflexive : (c : Const) → same c c ≡ true)
      → Respects o same
      → {e : Tree} {ts : List Token} → Sum 9 e ts
      → (u : Token) (rest : List (Option Token)) (s : ParserState) → At ts u rest s
      → bound u.val ≡ 11
      → s.disable_op_in_parse ≡ false
      → NoTuple same u s
      → Evaluates e u rest s
  parse_try_expr-exec reflexive law d u rest s at le off no_comma =
      let g = parse_try_expr-Goes same reflexive d u rest s at le off no_comma in
      record {
        goes = g;
        computes = λ few.
            Compiles-Computes o g.end.info.code.const_val same law few g.compiles (Sum-Binaries d);
      }
