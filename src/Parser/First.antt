-- ===== src/Parser/First.antt =====
-- The first tokens of the parts of an expression.
use python_lite.Base.{ℕ, suc, ◌+◌, ◌≤◌, ◌<◌, ◌≡◌, ◌≢◌, List, [], ◌∷◌, ◌++◌, arith}
use python_lite.Lexer.Token.{tk_kw_not}
use python_lite.Parser.State.{Token, Const}
use python_lite.Parser.Grammar.{
  Term, named, constant, parens, Factor, termed, powered, signed, Sum, factor, chain, negated,
  Chain, stop, more, one, is, is_not, not_in, Unary, plus, minus, tilde, unary_token, Literal, int,
  float, string, bytes, true_lit, false_lit, none_lit, Tree,
}
use python_lite.Parser.Levels.{bound, simple_op-bound}
use python_lite.Parser.Steps.{head}

-- An expression does not begin with ')', nor, where `not` may not stand, with `not`.
abbrev pub Starts : ℕ → ℕ → Type 0
Starts i v = (v ≢ b')') × (i < 7 → v ≢ tk_kw_not)

Literal-Starts : (t : Token) {c : Const} (i : ℕ) → Literal t c → Starts i t.val
Literal-Starts t i (int e) = (λ h. omega arith, λ p h. omega arith)
Literal-Starts t i (float e) = (λ h. omega arith, λ p h. omega arith)
Literal-Starts t i (string e) = (λ h. omega arith, λ p h. omega arith)
Literal-Starts t i (bytes e) = (λ h. omega arith, λ p h. omega arith)
Literal-Starts t i (true_lit e) = (λ h. omega arith, λ p h. omega arith)
Literal-Starts t i (false_lit e) = (λ h. omega arith, λ p h. omega arith)
Literal-Starts t i (none_lit e) = (λ h. omega arith, λ p h. omega arith)

abbrev Begins : ℕ → List Token → Type 0
Begins i [] = ⊥
Begins i (t ∷ ts) = Starts i t.val

Begins-append : (i : ℕ) (ts us : List Token) → Begins i ts → Begins i (ts ++ us)
Begins-append i [] us h = absurd h
Begins-append i (t ∷ ts) us h = h

Begins-head :
    (i : ℕ) (ts us : List Token) (u : Token) → Begins i ts → Starts i (head (ts ++ us) u).val
Begins-head i [] us u h = absurd h
Begins-head i (t ∷ ts) us u h = h

Unary-Starts : (t : Token) (i : ℕ) (o : Unary) → t.val ≡ unary_token o → Starts i t.val
Unary-Starts t i plus e = (λ h. omega arith, λ p h. omega arith)
Unary-Starts t i minus e = (λ h. omega arith, λ p h. omega arith)
Unary-Starts t i tilde e = (λ h. omega arith, λ p h. omega arith)

Term-Begins : {e : Tree} {ts : List Token} (i : ℕ) → Term e ts → Begins i ts
Term-Begins i (named t e) = (λ h. omega arith, λ p h. omega arith)
Term-Begins i (constant t l) = Literal-Starts t i l
Term-Begins i (parens t v e s f) = (λ h. omega arith, λ p h. omega arith)

Factor-Begins : {e : Tree} {ts : List Token} (i : ℕ) → Factor e ts → Begins i ts
Factor-Begins i (termed d) = Term-Begins i d
Factor-Begins i (powered {ts} {us} t d e f) = Begins-append i ts (t ∷ us) (Term-Begins i d)
Factor-Begins i (signed t o e d) = Unary-Starts t i o e

raise : (k : ℕ) (ts : List Token) → Begins k ts → Begins (suc k) ts
raise k [] h = h
raise k (t ∷ ts) h = (h.0, λ p. h.1 (omega arith))

-- `not` may begin the sums from level 7 on.
Sum-Begins : {k : ℕ} {e : Tree} {ts : List Token} → Sum k e ts → Begins k ts
Sum-Begins (factor d) = Factor-Begins 0 d
Sum-Begins (chain {k} {ts} {us} p d c) = Begins-append (suc k) ts us (raise k ts (Sum-Begins d))
Sum-Begins (negated t e f d) = (λ h. omega arith, λ p h. omega arith)

pub Sum-first :
    {k : ℕ} {e : Tree} {ts : List Token} (us : List Token) (u : Token)
    → Sum k e ts
    → Starts k (head (ts ++ us) u).val
Sum-first {k} {e} {ts} us u d = Begins-head k ts us u (Sum-Begins d)

-- What follows a sum binds no more than its level, if it is an operator of that level.
pub Chain-bound :
    {i : ℕ} {a e : Tree} {us : List Token} (u : Token)
    → Chain i a e us
    → i + 3 ≤ bound u.val
    → i + 2 ≤ bound (head us u).val
unfolding bound
Chain-bound u stop h = omega arith
Chain-bound u (more (one t e) d c) h = omega (arith, simple_op-bound _ t.val _ e)
Chain-bound u (more (is t e o k) d c) h = rw k (omega (arith, e))
Chain-bound u (more (is_not t v e o k l) d c) h = rw k (omega (arith, e))
Chain-bound u (more (not_in t v e o k l) d c) h = rw k (omega (arith, e))
