-- ===== src/Parser/Reading.antt =====
-- How a level reads an operator, and how a term ends.
use python_lite.Base.{
  ℕ, ◌+◌, ◌≤◌, ◌<◌, ◌≡◌, ◌≢◌, refl, sym, ap, ◌∙◌, List, [], ◌∷◌, ◌++◌, Bool, false, ◌&&◌, Option,
  some, none, arith, ◌==◌, ==_iff, leb, if◌then◌else◌, if_true, if_false,
}
use python_lite.Lexer.Token.{tk_kw_in, tk_kw_is, tk_kw_not}
use python_lite.Vm.Ops.{op_is, op_is_not, op_not_in}
use python_lite.Parser.State.{
  Token, Const, ParserState, done, M, ◌>>=◌, ◌>>◌, return, peek, next, accept,
}
use python_lite.Parser.Suffix.{parse_try_suffix}
use python_lite.Parser.Expr.{simple_op, read_op, read_simple, read_is, read_not_in}
use python_lite.Parser.Grammar.{Spelt, one, is, is_not, not_in}
use python_lite.Parser.Levels.{bound, simple_op-none}
use python_lite.Parser.Eventually.{Eventually, Eventually-suc, Eventually-always, bind_done}
use python_lite.Parser.Steps.{
  queue, queue-head, head, tail, At, After, After-trans, stepped, next-stepped, stepped-After,
}

-- The three tests of `read_op`.
abbrev stops_in : ℕ → ParserState → Bool
stops_in i s =
    i == 6 && (s.token.val == tk_kw_in && (s.disable_op_in_parse && leb s.lval_check.expr_level 1))

read_op-simple :
    (i : ℕ) (s : ParserState)
    → s.disable_op_in_parse ≡ false
    → (i == 6 && s.token.val == tk_kw_is) ≡ false
    → (i == 6 && s.token.val == tk_kw_not) ≡ false
    → read_op i s ≡ read_simple (simple_op i s.token.val) s
unfolding read_op
read_op-simple i s off no_is no_not =
    ap (λ (m : M (Option ℕ)). m s)
      (if_false (stops_in i s) _ _ (ground arith)
        ∙ if_false (i == 6 && s.token.val == tk_kw_is) _ _ no_is
        ∙ if_false (i == 6 && s.token.val == tk_kw_not) _ _ no_not)

read_op-is : (i : ℕ) (s : ParserState) → i ≡ 6 → s.token.val ≡ tk_kw_is → read_op i s ≡ read_is s
unfolding read_op
read_op-is i s e k =
    ap (λ (m : M (Option ℕ)). m s)
      (if_false (stops_in i s) _ _ (ground arith)
        ∙ if_true (i == 6 && s.token.val == tk_kw_is) _ _ (ground arith))

read_op-not :
    (i : ℕ) (s : ParserState) → i ≡ 6 → s.token.val ≡ tk_kw_not → read_op i s ≡ read_not_in s
unfolding read_op
read_op-not i s e k =
    ap (λ (m : M (Option ℕ)). m s)
      (if_false (stops_in i s) _ _ (ground arith)
        ∙ if_false (i == 6 && s.token.val == tk_kw_is) _ _ (ground arith)
        ∙ if_true (i == 6 && s.token.val == tk_kw_not) _ _ (ground arith))

-- `is` and `not` are not operators of one token.
simple_no_is : (i op t : ℕ) → simple_op i t ≡ some op → (i == 6 && t == tk_kw_is) ≡ false
unfolding simple_op
simple_no_is i op t h = ground arith

simple_no_not : (i op t : ℕ) → simple_op i t ≡ some op → (i == 6 && t == tk_kw_not) ≡ false
unfolding simple_op
simple_no_not i op t h = ground arith

-- What follows the first `next` of `read_is`.
abbrev is_rest : Unit {0} → M (Option ℕ)
is_rest x = do
  tk ← peek
  if tk == tk_kw_not then (do next; return (some op_is_not)) else return (some op_is)

-- At a token that binds less, a level ends.
pub read_op-none :
    (i : ℕ) (s : ParserState)
    → s.disable_op_in_parse ≡ false
    → i + 2 < bound s.token.val
    → read_op i s ≡ done none s
unfolding bound
read_op-none i s off le =
    read_op-simple i s off (ground arith) (ground arith)
    ∙ ap (λ o. read_simple o s) (simple_op-none i s.token.val le)

-- The step behind the first token of some.
pub step_over :
    (t : Token) (rs : List Token) (u : Token) (rest : List (Option Token)) (s : ParserState)
    → At (t ∷ rs) u rest s
    → next s ≡ done tt (stepped (head rs u) (tail rs u rest) s)
step_over t rs u rest s at = next-stepped s (at.rest ∙ queue-head rs u rest)

pub accept-next : (token : ℕ) (s : ParserState) → s.token.val ≡ token → accept token s ≡ next s
unfolding accept
accept-next token s e =
    ap (λ (m : M (Unit {0})). m s) (if_true (s.token.val == token) next _ ((==_iff _ _).1 e))

-- An operator is read with all its tokens; `rs` are those behind it, of which the first one is not
-- `not`.
pub read_op-Spelt :
    {i op : ℕ} {os : List Token} (rs : List Token) (u : Token) (rest : List (Option Token))
    (s : ParserState)
    → Spelt i op os
    → At (os ++ rs) u rest s
    → s.disable_op_in_parse ≡ false
    → (i ≡ 6 → (head rs u).val ≢ tk_kw_not)
    → (s' : ParserState) × (read_op i s ≡ done (some op) s')
      × After (head rs u) (tail rs u rest) [] [] s s'
read_op-Spelt {i} {op} rs u rest s (one t e) at off not_not = (
  stepped (head rs u) (tail rs u rest) s,
  read_op-simple i s off (simple_no_is i op s.token.val (ap (λ v. simple_op i v.val) at.token ∙ e))
        (simple_no_not i op s.token.val (ap (λ v. simple_op i v.val) at.token ∙ e))
      ∙ ap (λ o. read_simple o s) (ap (λ v. simple_op i v.val) at.token ∙ e)
      ∙ bind_done next (λ x. return (some op)) s (step_over t rs u rest s at),
  stepped-After (head rs u) (tail rs u rest) s,
)
read_op-Spelt {i} {op} rs u rest s (is t e o k) at off not_not =
    let s1 = stepped (head rs u) (tail rs u rest) s in
    (
      s1,
      read_op-is i s e (ap (λ v. v.val) at.token ∙ k)
          ∙ bind_done next is_rest s (step_over t rs u rest s at)
          ∙ ap (λ (m : M (Option ℕ)). m s1)
              (if_false ((head rs u).val == tk_kw_not) _ _ (let n = not_not e in ground arith))
          ∙ ap (λ v. done (some v) s1) (sym o),
      stepped-After (head rs u) (tail rs u rest) s,
    )
read_op-Spelt {i} {op} rs u rest s (is_not t v e o k l) at off not_not =
    let s1 = stepped v (queue rs u rest) s in
    let s2 = stepped (head rs u) (tail rs u rest) s1 in
    (
      s2,
      read_op-is i s e (ap (λ w. w.val) at.token ∙ k)
          ∙ bind_done next is_rest s (step_over t (v ∷ rs) u rest s at)
          ∙ ap (λ (m : M (Option ℕ)). m s1) (if_true (v.val == tk_kw_not) _ _ ((==_iff _ _).1 l))
          ∙ bind_done next (λ x. return (some op_is_not)) s1
              (next-stepped s1 (queue-head rs u rest))
          ∙ ap (λ w. done (some w) s2) (sym o),
      After-trans (stepped-After v (queue rs u rest) s)
          (stepped-After (head rs u) (tail rs u rest) s1),
    )
read_op-Spelt {i} {op} rs u rest s (not_in t v e o k l) at off not_not =
    let s1 = stepped v (queue rs u rest) s in
    let s2 = stepped (head rs u) (tail rs u rest) s1 in
    (
      s2,
      read_op-not i s e (ap (λ w. w.val) at.token ∙ k)
          ∙ bind_done next (λ x. accept tk_kw_in >> return (some op_not_in)) s
              (step_over t (v ∷ rs) u rest s at)
          ∙ bind_done (accept tk_kw_in) (λ x. return (some op_not_in)) s1
              (accept-next tk_kw_in s1 l ∙ next-stepped s1 (queue-head rs u rest))
          ∙ ap (λ w. done (some w) s2) (sym o),
      After-trans (stepped-After v (queue rs u rest) s)
          (stepped-After (head rs u) (tail rs u rest) s1),
    )

-- The loop over what follows a term ends at a token that binds less.
pub parse_try_suffix-ends :
    (same : Const → Const → Bool) (try_expr : ℕ → M Bool) (s : ParserState)
    → 1 ≤ bound s.token.val
    → Eventually (λ n. parse_try_suffix same (try_expr n) n false s) (done false s)
unfolding parse_try_suffix bound
parse_try_suffix-ends same try_expr s le =
    Eventually-suc (λ n. parse_try_suffix same (try_expr n) n false s) (λ n. done false s)
      (λ n.
        ap (λ (m : M Bool). m s)
          (if_false (s.token.val == b'.') _ _ (ground arith)
            ∙ if_false (s.token.val == b'[') _ _ (ground arith)
            ∙ if_false (s.token.val == b'(') _ _ (ground arith)))
      (Eventually-always λ n. refl)
