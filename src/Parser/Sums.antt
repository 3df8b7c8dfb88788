-- ===== src/Parser/Sums.antt =====
-- The levels of operators: a chain of operators of one level, from the left.
use mathlib.Core.Path.{subst}
use mathlib.Core.List.{append_assoc, append-nil}
use python_lite.Base.{
  ℕ, suc, ◌+◌, ◌≤◌, ◌≡◌, ◌≢◌, refl, sym, ap, ◌∙◌, List, [], ◌∷◌, ◌++◌, Bool, false, Option, arith,
}
use python_lite.Lexer.Token.{tk_kw_not}
use python_lite.Vm.Codes.{Instruction, build_ins, bc_operator}
use python_lite.Parser.State.{Token, Const, ParserState, done, ◌>>◌}
use python_lite.Parser.Expr.{
  write_op, parse_try_expr10, parse_level, operand, level_body, level_rest, read_op,
}
use python_lite.Parser.Grammar.{Tree, binary, Spelt}
use python_lite.Parser.Levels.{bound}
use python_lite.Parser.Eventually.{Eventually, Eventually-suc, Eventually-always, Eventually-bind}
use python_lite.Parser.Compiles.{Compiles, combines}
use python_lite.Parser.Steps.{head, tail, At, After, After-trans, Stays-trans, write_op-Stays}
use python_lite.Parser.Reading.{read_op-Spelt}
use python_lite.Parser.Terms.{still}
use python_lite.Parser.Factors.{Parses, sum_at, At-append, idle}

module _ (same : Const → Const → Bool) where
  -- A level goes on behind the tree `a`, whose code is written already, to the end of `e`.
  pub record Continues (i : ℕ) (c : List Instruction) (e : Tree) (u : Token)
      (more : List (Option Token)) (s : ParserState) : Type 0 where
    pub end : ParserState
    pub added : List Const
    pub written : List Instruction
    pub runs : Eventually (λ n. parse_level same n i s) (done tt end)
    pub changes : After u more added written s end
    pub compiles : Compiles same end.info.code.const_val e (c ++ written)

  abbrev pub ChainParses : ℕ → Tree → Tree → List Token → Type 0
  ChainParses i a e ts =
      (u : Token) (rest : List (Option Token)) (s : ParserState) (c : List Instruction)
      → At ts u rest s
      → i + 3 ≤ bound u.val
      → s.disable_op_in_parse ≡ false
      → Compiles same s.info.code.const_val a c
      → Continues i c e u rest s

  pub stop-ChainParses : (i : ℕ) (a : Tree) → ChainParses i a a []
  stop-ChainParses i a u rest s c at le off k = record {
    end = s;
    added = [];
    written = [];
    runs = idle same i s off (ground (arith, ap (λ (v : Token). bound v.val) at.token));
    changes = record {
      token = at.token;
      rest = at.rest;
      consts = sym (append-nil _);
      opcodes = sym (append-nil _);
      op_in = refl;
      tuple = refl;
      level = refl;
    };
    compiles = rw append-nil k;
  }

  pub more-ChainParses :
      (i op : ℕ) (a b e : Tree) (os ts us : List Token)
      → Spelt i op os
      → ((u : Token) → i ≡ 6 → (head (ts ++ us) u).val ≢ tk_kw_not)
      → ((u : Token) → i + 3 ≤ bound u.val → i + 2 ≤ bound (head us u).val)
      → Parses same (sum_at same i) tt b ts (i + 2)
      → ChainParses i (binary op a b) e us
      → ChainParses i a e (os ++ (ts ++ us))
  unfolding parse_level level_body
  more-ChainParses i op a b e os ts us spelt no_not bounded h k u rest s c at le off code =
      let (s1, e1, h1) = read_op-Spelt (ts ++ us) u rest s spelt at off (no_not u) in
      let at1 : At (ts ++ us) u rest s1 = record { token = h1.token; rest = h1.rest } in
      let g =
        h (head us u) (tail us u rest) s1 (At-append ts us u rest s1 at1) (bounded u le)
          (h1.op_in ∙ off) in
      let (s3, e3, h3) = write_op-Stays op g.end in
      let both = Stays-trans (After-trans h1 g.changes) h3 in
      let at3 : At us u rest s3 = record { token = both.token; rest = both.rest } in
      let code3 : Compiles same s3.info.code.const_val (binary op a b)
          (c ++ (g.written ++ build_ins bc_operator 0 op ∷ [])) =
        combines op (still same both code) (still same h3 g.compiles) in
      let j =
        k u rest s3 (c ++ (g.written ++ build_ins bc_operator 0 op ∷ [])) at3 le (both.op_in ∙ off)
          code3 in
      record {
        end = j.end;
        added = (g.added ++ []) ++ j.added;
        written = (g.written ++ build_ins bc_operator 0 op ∷ []) ++ j.written;
        runs =
            Eventually-suc (λ n. parse_level same n i s) _ (λ n. refl)
              (Eventually-bind (λ n. read_op i)
                (λ n. level_rest (parse_try_expr10 same n) (parse_level same n) i) s
                (Eventually-always λ n. e1)
                (Eventually-bind (sum_at same i) (λ n x. write_op op >> parse_level same n i) s1
                  g.runs
                  (Eventually-bind (λ n. write_op op) (λ n x. parse_level same n i) g.end
                    (Eventually-always λ n. e3) j.runs)));
        changes = After-trans both j.changes;
        compiles =
            subst (Compiles same j.end.info.code.const_val e)
              (append_assoc c (g.written ++ build_ins bc_operator 0 op ∷ []) j.written) j.compiles;
      }

  pub chain-Parses :
      (k : ℕ) (a e : Tree) (ts us : List Token)
      → ((u : Token) → k + 3 ≤ bound u.val → k + 2 ≤ bound (head us u).val)
      → Parses same (sum_at same k) tt a ts (k + 2)
      → ChainParses k a e us
      → Parses same (sum_at same (suc k)) tt e (ts ++ us) (suc k + 2)
  unfolding operand
  chain-Parses k a e ts us bounded h j u rest s at le off =
      let g =
        h (head us u) (tail us u rest) s (At-append ts us u rest s at) (bounded u (omega arith))
          off in
      let at1 : At us u rest g.end = record { token = g.changes.token; rest = g.changes.rest } in
      let r = j u rest g.end g.written at1 (omega arith) (g.changes.op_in ∙ off) g.compiles in
      record {
        end = r.end;
        added = g.added ++ r.added;
        written = g.written ++ r.written;
        runs = Eventually-bind (sum_at same k) (λ n x. parse_level same n k) s g.runs r.runs;
        changes = After-trans g.changes r.changes;
        compiles = r.compiles;
      }
