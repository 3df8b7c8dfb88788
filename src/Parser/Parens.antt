-- ===== src/Parser/Parens.antt =====
-- The parentheses of a term.
use mathlib.Core.List.{append-nil}
use python_lite.Base.{
  ℕ, ◌≤◌, ◌≡◌, ◌≢◌, refl, ap, ◌∙◌, List, [], ◌∷◌, ◌++◌, Bool, true, false, not, ◌&&◌, some, arith,
  ◌==◌, if◌then◌else◌, if_false,
}
use python_lite.Vm.Codes.{bc_new_obj, type_tuple}
use python_lite.Parser.State.{Token, Const, M, ◌>>=◌, ◌>>◌, return, peek, next, accept}
use python_lite.Parser.Emit.{write_ins}
use python_lite.Parser.Containers.{parse_expr, items_loop}
use python_lite.Parser.Expr.{t_switch, paren_t, parse_try_t, parse_try_expr}
use python_lite.Parser.Grammar.{Tree}
use python_lite.Parser.Levels.{bound}
use python_lite.Parser.Eventually.{bind_done}
use python_lite.Parser.Steps.{head, tail, At, After-trans, stepped, next-stepped, stepped-After}
use python_lite.Parser.Reading.{step_over, accept-next}
use python_lite.Parser.Terms.{still, term_ends}
use python_lite.Parser.Factors.{Parses, sum_at, At-append}
use python_lite.Parser.Whole.{parse_expr-Goes}

closing_bound : (t : ℕ) → t ≡ b')' → 11 ≤ bound t
unfolding bound
closing_bound t h = ground arith

no_comma : (d : Bool) (t : ℕ) → t ≡ b')' → (not d && t == b',') ≡ false
no_comma true t h = refl
no_comma false t h = ground arith

ne_test : (a b : ℕ) → a ≢ b → (a == b) ≡ false
ne_test a b h = ground arith

module _ (same : Const → Const → Bool) where
  abbrev after_inner : ℕ → M (Unit {0})
  after_inner n = do
    tk' ← peek
    if tk' == b','
        then (do
          next
          num ← items_loop (parse_try_expr same n) n 1
          write_ins bc_new_obj type_tuple num)
        else return tt
    accept b')'

  abbrev inner : ℕ → M (Unit {0})
  inner n = do
    tk ← peek
    if tk == b')'
        then (do next; write_ins bc_new_obj type_tuple 0)
        else (do parse_expr (parse_try_expr same n); after_inner n)

  pub parens-Parses :
      (t v : Token) (e : Tree) (ts : List Token)
      → t.val ≡ b'('
      → v.val ≡ b')'
      → ((u : Token) → (head (ts ++ v ∷ []) u).val ≢ b')')
      → Parses same (sum_at same 9) tt e ts 11
      → Parses same (parse_try_t same) true e (t ∷ (ts ++ v ∷ [])) 1
  unfolding t_switch paren_t
  parens-Parses t v e ts p q starts h u rest s at le off =
      let s1 = stepped (head (ts ++ v ∷ []) u) (tail (ts ++ v ∷ []) u rest) s in
      let at1 : At (ts ++ v ∷ []) u rest s1 = record { token = refl; rest = refl } in
      let g =
        parse_expr-Goes same e ts v (some u ∷ rest) s1 h (At-append ts (v ∷ []) u rest s1 at1)
          (closing_bound v.val q) off (no_comma s.disable_expr_tuple_parse v.val q) in
      let s3 = stepped u rest g.end in
      let closing : g.end.token.val ≡ b')' = ap (λ (w : Token). w.val) g.changes.token ∙ q in
      let changes =
        After-trans
          (After-trans (stepped-After (head (ts ++ v ∷ []) u) (tail (ts ++ v ∷ []) u rest) s)
            g.changes)
          (stepped-After u rest g.end) in
      record {
        end = s3;
        added = g.added ++ [];
        written = g.written ++ [];
        runs = term_ends same b'(' s s3 (ap (λ (w : Token). w.val) at.token ∙ p) le (
            let (enough, k) = g.runs in
            (
              enough,
              λ n z.
                  bind_done (paren_t same n (parse_try_expr same n)) (λ x. return true) s
                    (bind_done next (λ x. inner n) s (step_over t (ts ++ v ∷ []) u rest s at)
                      ∙ ap (λ (m : M (Unit {0})). m s1)
                          (if_false ((head (ts ++ v ∷ []) u).val == b')') _ _
                            (ne_test _ b')' (starts u)))
                      ∙ bind_done (parse_expr (parse_try_expr same n)) (λ x. after_inner n) s1
                          (k n z)
                      ∙ ap (λ (m : M (Unit {0})). (m >> accept b')') g.end)
                          (if_false (g.end.token.val == b',') _ _ (ground (arith, closing)))
                      ∙ accept-next b')' g.end closing
                      ∙ next-stepped g.end g.changes.rest),
            ));
        changes = changes;
        compiles = rw append-nil (still same (stepped-After u rest g.end) g.compiles);
      }
