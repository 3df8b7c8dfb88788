-- ===== src/Parser/Factors.antt =====
-- `parse_try_expr10`: powers and signs; and `not`.
use python_lite.Base.{
  ℕ, suc, ◌+◌, ◌≤◌, ◌<◌, ◌≡◌, refl, ap, ◌∙◌, List, ◌++◌, Bool, true, false, Option, arith, ◌==◌,
  if◌then◌else◌, if_false,
}
use python_lite.Lexer.Token.{tk_op_pow}
use python_lite.Parser.State.{
  Token, Const, ParserState, done, invalid_syntax, M, ◌>>=◌, return, fail, peek,
}
use python_lite.Parser.Expr.{
  parse_try_t, parse_try_expr10, parse_level, expr10_body, power_rest, parse_expr10, operand,
  level_body, level_rest, read_op,
}
use python_lite.Parser.Grammar.{Tree}
use python_lite.Parser.Levels.{bound}
use python_lite.Parser.Eventually.{
  Eventually, Eventually-suc, Eventually-always, Eventually-bind, bind_done,
}
use python_lite.Parser.Steps.{head, tail, head-append, tail-append, At}
use python_lite.Parser.Reading.{read_op-none}
use python_lite.Parser.Terms.{Goes}

pub At-append :
    (ts us : List Token) (u : Token) (rest : List (Option Token)) (s : ParserState)
    → At (ts ++ us) u rest s
    → At ts (head us u) (tail us u rest) s
At-append ts us u rest s at = record {
  token = at.token ∙ head-append ts us u;
  rest = at.rest ∙ tail-append ts us u rest;
}

not_pow : (t : ℕ) → 2 ≤ bound t → (t == tk_op_pow) ≡ false
unfolding bound
not_pow t h = ground arith

module _ (same : Const → Const → Bool) where
  -- At the tokens of `e`, with a token behind them that binds no more than `k` says, `m` goes
  -- through them.
  abbrev pub Parses {ℓ} : {A : Type ℓ} → (ℕ → M A) → A → Tree → List Token → ℕ → Type ℓ
  Parses m a e ts k =
      (u : Token) (rest : List (Option Token)) (s : ParserState)
      → At ts u rest s
      → k ≤ bound u.val
      → s.disable_op_in_parse ≡ false
      → Goes same m a e u rest s

  -- The calls that the code writes out for an operand of the level `k`.
  abbrev pub sum_at : ℕ → ℕ → M (Unit {0})
  sum_at k n = operand (parse_expr10 (parse_try_expr10 same n)) (parse_level same n) k

  pub termed-Parses :
      (e : Tree) (ts : List Token) (j k : ℕ)
      → j ≤ k
      → 2 ≤ k
      → Parses (parse_try_t same) true e ts j
      → Parses (parse_try_expr10 same) true e ts k
  unfolding parse_try_expr10 expr10_body
  termed-Parses e ts j k p q h u rest s at le off =
      let g = h u rest s at (omega arith) off in
      record {
        end = g.end;
        added = g.added;
        written = g.written;
        runs =
            Eventually-suc (λ n. parse_try_expr10 same n s) _ (λ n. refl)
              (Eventually-bind (parse_try_t same)
                (λ n ok. peek >>= power_rest (parse_try_t same n) ok) s g.runs
                (Eventually-always λ n.
                  ap (λ (m : M Bool). m g.end)
                    (if_false (g.end.token.val == tk_op_pow) _ _ (
                      not_pow g.end.token.val
                        (ground (arith, ap (λ (v : Token). bound v.val) g.changes.token))))));
        changes = g.changes;
        compiles = g.compiles;
      }

  pub factor-Parses :
      (e : Tree) (ts : List Token) (k : ℕ)
      → Parses (parse_try_expr10 same) true e ts k
      → Parses (sum_at 0) tt e ts k
  unfolding operand parse_expr10
  factor-Parses e ts k h u rest s at le off =
      let g = h u rest s at le off in
      record {
        end = g.end;
        added = g.added;
        written = g.written;
        runs =
            Eventually-bind (parse_try_expr10 same)
              (λ n ok. if ok then return tt else fail invalid_syntax) s g.runs
              (Eventually-always λ n. refl);
        changes = g.changes;
        compiles = g.compiles;
      }

  -- A level at which nothing follows.
  pub idle :
      (i : ℕ) (s : ParserState)
      → s.disable_op_in_parse ≡ false
      → i + 2 < bound s.token.val
      → Eventually (λ n. parse_level same n i s) (done tt s)
  unfolding parse_level level_body
  idle i s off le =
      Eventually-suc (λ n. parse_level same n i s) _ (λ n. refl)
        (Eventually-always λ n.
          bind_done (read_op i) (level_rest (parse_try_expr10 same n) (parse_level same n) i) s
            (read_op-none i s off le))

  pub idle-Parses :
      (e : Tree) (ts : List Token) (i k : ℕ)
      → i + 3 ≤ k
      → Parses (sum_at i) tt e ts k
      → Parses (sum_at (suc i)) tt e ts k
  unfolding operand
  idle-Parses e ts i k p h u rest s at le off =
      let g = h u rest s at le off in
      record {
        end = g.end;
        added = g.added;
        written = g.written;
        runs =
            Eventually-bind (sum_at i) (λ n x. parse_level same n i) s g.runs
              (idle i g.end (g.changes.op_in ∙ off)
                (ground (arith, ap (λ (v : Token). bound v.val) g.changes.token)));
        changes = g.changes;
        compiles = g.compiles;
      }
