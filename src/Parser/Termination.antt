-- ===== src/Parser/Termination.antt =====
-- The functions of the expression parser call one another: their contract by induction on the fuel.
use python_lite.Base.{ℕ, zero, suc, ◌+◌, ◌*◌, ◌≤◌, ◌<◌, ◌≡◌, ◌≢◌, refl, Bool, none, arith, inl, inr}
use python_lite.Parser.State.{Const, ParserState, Parse, M, done, out_of_fuel}
use python_lite.Parser.Expr.{parse_try_t, parse_try_expr10, parse_level, parse_try_expr}
use python_lite.Parser.Contract.{left, Keeps, Ends, returned, failed, unset, short, Safe}
use python_lite.Parser.Rules.{Enough, no_fuel}
use python_lite.Parser.Results.{Tries, if_true_one}
use python_lite.Parser.Total.{t_body-Tries, expr10_body-Tries, level_body-Safe, expr_body-Tries}

-- The four functions with `n` fuel, each with as much as it needs for `b` tokens.
record Knot (same : Const → Const → Bool) (F : Type 0) (n : ℕ) : Type 0 where
  term : (b : ℕ) → Enough F (3 * b) n → Tries F b (parse_try_t same n)
  ten : (b : ℕ) → Enough F (3 * b + 1) n → Tries F b (parse_try_expr10 same n)
  level : (b : ℕ) → Enough F (3 * b) n → (i : ℕ) → Safe F none b 0 (parse_level same n i)
  expr : (b : ℕ) → Enough F (3 * b + 2) n → Tries F b (parse_try_expr same n)

-- Fuel for a call with less tokens or less to do.
less : {F : Type 0} {x y n : ℕ} → y < x → Enough F x (suc n) → Enough F y n
less lt (inl h) = inl (omega arith)
less lt (inr x) = inr x

wide : {F : Type 0} (b : ℕ) {x n : ℕ} → b ≤ x → Enough F x n → Enough F b n
wide b le (inl h) = inl (omega arith)
wide b le (inr x) = inr x

out :
    {F : Type 0} {b : ℕ} {m : M Bool} {x : ℕ}
    → Enough F x zero
    → ((s : ParserState) → m s ≡ out_of_fuel)
    → Tries F b m
out (inl h) e = elim h [ ]
out (inr x) e = record { run = λ s known le. rw (e s) (short x) }

knot : (same : Const → Const → Bool) (F : Type 0) (n : ℕ) → Knot same F n
unfolding parse_try_t parse_try_expr10 parse_level parse_try_expr
knot same F zero = record {
  term = λ b h. out h λ s. refl;
  ten = λ b h. out h λ s. refl;
  level = λ b h i. no_fuel (wide b (omega arith) h) λ s. refl;
  expr = λ b h. out h λ s. refl;
}
knot same F (suc n) =
    let k : Knot same F n = knot same F n in
    record {
      term = λ b h. record {
        run =
            (t_body-Tries same _ _ _ n b (wide b (omega arith) h)
              (λ a lt. k.expr a (less (omega arith) h)) (λ a lt. k.ten a (less (omega arith) h))
              (λ a lt. k.level a (less (omega arith) h))).run;
      };
      ten = λ b h. record { run = (expr10_body-Tries _ (k.term b (less (omega arith) h))).run };
      level = λ b h i. record {
        run =
            (level_body-Safe _ _ i (λ a lt. k.ten a (less (omega arith) h))
              (λ a lt. k.level a (less (omega arith) h))).run;
      };
      expr = λ b h. record {
        run =
            (expr_body-Tries same _ _ _ n b (wide b (omega arith) h)
              (λ a lt. k.expr a (less (omega arith) h)) (k.ten b (less (omega arith) h))
              (k.level b (less (omega arith) h))).run;
      };
    }

-- With any fuel at all, if a call may run out of it.
pub parse_try_expr-Tries :
    (same : Const → Const → Bool) {F : Type 0} (n b : ℕ)
    → Enough F (3 * b + 2) n
    → Tries F b (parse_try_expr same n)
parse_try_expr-Tries same {F} n b h = (knot same F n).expr b h

Ends-with :
    {k : Bool → ℕ} {s : ParserState} {r : Parse Bool}
    → Ends ⊥ (λ ok. Keeps (k ok) s) r
    → (r ≢ out_of_fuel) × ((ok : Bool) (s' : ParserState) → r ≡ done ok s' → Keeps (k ok) s s')
Ends-with {k} {s} (returned {a = a} {s = t} q) = (
  λ e. cc,
  λ ok s' e.
      let same_ok : a ≡ ok = cc in let same_state : t ≡ s' = cc in rw (← same_ok, ← same_state) q,
)
Ends-with failed = (λ e. cc, λ ok s' e. cc)
Ends-with unset = (λ e. cc, λ ok s' e. cc)
Ends-with (short x) = elim x [ ]

-- Whatever the tokens are, a call with three units of fuel for each of them and three more does not
-- run out of it. If it returns, it has read a token where it accepts, none has come to those that
-- are left, and the loops and functions around, the start of the left value and its cache are as
-- before; no instruction has gone, and of the placeholders of break and continue each still
-- belongs to one of the loops that it may have belonged to, by any bound on its position.
pub parse_try_expr-Keeps :
    (same : Const → Const → Bool) (n : ℕ) (ps : ParserState)
    → 3 * left ps + 3 ≤ n
    → (parse_try_expr same n ps ≢ out_of_fuel)
      × ((ok : Bool) (ps' : ParserState)
          → parse_try_expr same n ps ≡ done ok ps'
          → Keeps (if_true_one ok) ps ps')
parse_try_expr-Keeps same n ps le =
    Ends-with ((parse_try_expr-Tries same n (left ps) (inl (omega arith))).run ps tt (omega arith))
