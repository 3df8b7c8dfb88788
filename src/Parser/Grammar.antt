-- ===== src/Parser/Grammar.antt =====
-- Expressions as trees, and how they are written: what the levels of operators are, and that of two
-- operators of one level the left one comes first.
use python_lite.Base.{ℕ, zero, suc, ◌<◌, ◌≡◌, List, [], ◌∷◌, ◌++◌, true, false, some}
use python_lite.Lexer.Token.{
  tk_name, tk_int, tk_float, tk_string, tk_bytes, tk_kw_not, tk_kw_in, tk_kw_is, tk_op_pow,
  tk_kw_true, tk_kw_false, tk_kw_none,
}
use python_lite.Vm.Ops.{op_pos, op_neg, op_bitnot, op_is, op_is_not, op_not_in}
use python_lite.Parser.State.{Token, Const, value, bool_obj, none_obj}
use python_lite.Parser.Expr.{simple_op}

pub data Unary : Type 0 where
  plus minus tilde : Unary

abbrev pub unary_token : Unary → ℕ
unary_token plus = b'+'
unary_token minus = b'-'
unary_token tilde = b'~'

abbrev pub unary_op : Unary → ℕ
unary_op plus = op_pos
unary_op minus = op_neg
unary_op tilde = op_bitnot

pub data Tree : Type 0 where
  name : ℕ → Tree
  literal : Const → Tree
  unary : Unary → Tree → Tree
  negation : Tree → Tree
  power : Tree → Tree → Tree
  binary : (op : ℕ) → Tree → Tree → Tree

-- How a binary operator of the level `i` is written.
pub data Spelt (i op : ℕ) : List Token → Type 0 where
  one : (t : Token) → simple_op i t.val ≡ some op → Spelt i op (t ∷ [])
  is : (t : Token) → i ≡ 6 → op ≡ op_is → t.val ≡ tk_kw_is → Spelt i op (t ∷ [])
  is_not :
      (t u : Token)
      → i ≡ 6
      → op ≡ op_is_not
      → t.val ≡ tk_kw_is
      → u.val ≡ tk_kw_not
      → Spelt i op (t ∷ u ∷ [])
  not_in :
      (t u : Token)
      → i ≡ 6
      → op ≡ op_not_in
      → t.val ≡ tk_kw_not
      → u.val ≡ tk_kw_in
      → Spelt i op (t ∷ u ∷ [])

-- How a literal is written.
pub data Literal (t : Token) : Const → Type 0 where
  int : t.val ≡ tk_int → Literal t (value t.obj)
  float : t.val ≡ tk_float → Literal t (value t.obj)
  string : t.val ≡ tk_string → Literal t (value t.obj)
  bytes : t.val ≡ tk_bytes → Literal t (value t.obj)
  true_lit : t.val ≡ tk_kw_true → Literal t (bool_obj true)
  false_lit : t.val ≡ tk_kw_false → Literal t (bool_obj false)
  none_lit : t.val ≡ tk_kw_none → Literal t none_obj

-- `Sum k` are the expressions whose operators outside parentheses are of the levels below `k`, and
-- `Chain i a e` what follows `a`, which is written already, to make `e` by operators of the
-- level `i`. `not` stands between the comparisons and `and`.
mutual
  pub data Term : Tree → List Token → Type 0 where
    named : (t : Token) → t.val ≡ tk_name → Term (name t.obj) (t ∷ [])
    constant : (t : Token) {c : Const} → Literal t c → Term (literal c) (t ∷ [])
    parens :
        (t u : Token) {e : Tree} {ts : List Token}
        → t.val ≡ b'('
        → Sum 9 e ts
        → u.val ≡ b')'
        → Term e (t ∷ (ts ++ u ∷ []))

  pub data Factor : Tree → List Token → Type 0 where
    termed : {e : Tree} {ts : List Token} → Term e ts → Factor e ts
    powered :
        {a b : Tree} {ts us : List Token} (t : Token)
        → Term a ts
        → t.val ≡ tk_op_pow
        → Term b us
        → Factor (power a b) (ts ++ t ∷ us)
    signed :
        (t : Token) (o : Unary) {a : Tree} {ts : List Token}
        → t.val ≡ unary_token o
        → Factor a ts
        → Factor (unary o a) (t ∷ ts)

  pub data Sum : ℕ → Tree → List Token → Type 0 where
    factor : {e : Tree} {ts : List Token} → Factor e ts → Sum zero e ts
    chain :
        {k : ℕ} {a e : Tree} {ts us : List Token}
        → k < 9
        → Sum k a ts
        → Chain k a e us
        → Sum (suc k) e (ts ++ us)
    negated :
        {k : ℕ} (t : Token) {a : Tree} {ts : List Token}
        → k ≡ 7
        → t.val ≡ tk_kw_not
        → Sum k a ts
        → Sum k (negation a) (t ∷ ts)

  pub data Chain : ℕ → Tree → Tree → List Token → Type 0 where
    stop : {i : ℕ} {a : Tree} → Chain i a a []
    more :
        {i op : ℕ} {a b e : Tree} {os ts us : List Token}
        → Spelt i op os
        → Sum i b ts
        → Chain i (binary op a b) e us
        → Chain i a e (os ++ (ts ++ us))
