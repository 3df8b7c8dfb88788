-- ===== src/Parser/Steps.antt =====
-- What the primitive steps of the parser change, in a form that composes.
use mathlib.Core.List.{append_assoc, append-nil}
use python_lite.Base.{
  ℕ, ◌+◌, ◌≡◌, refl, sym, ap, ◌∙◌, List, [], ◌∷◌, ◌++◌, Bool, true, false, Option, some, Bool-cases,
  inl, inr, if_true, if_false,
}
use python_lite.Vm.Codes.{Instruction, build_ins, bc_operator}
use python_lite.Parser.State.{
  Token, Const, ParserState, done, ◌>>◌, return, next, lval_check_judge, lval_check_valid,
}
use python_lite.Parser.Emit.{write_ins}
use python_lite.Parser.Expr.{write_op}
use python_lite.Parser.Eventually.{bind_done}

-- The tokens `ts`, then `u` and the rest: as what the lexer returns, and as the current token with
-- what the lexer returns after it.
abbrev pub queue : List Token → Token → List (Option Token) → List (Option Token)
queue [] u rest = some u ∷ rest
queue (t ∷ ts) u rest = some t ∷ queue ts u rest

abbrev pub head : List Token → Token → Token
head [] u = u
head (t ∷ ts) u = t

abbrev pub tail : List Token → Token → List (Option Token) → List (Option Token)
tail [] u rest = rest
tail (t ∷ ts) u rest = queue ts u rest

pub queue-append :
    (ts us : List Token) (u : Token) (rest : List (Option Token))
    → queue (ts ++ us) u rest ≡ queue ts (head us u) (tail us u rest)
queue-append [] [] u rest = refl
queue-append [] (v ∷ us) u rest = refl
queue-append (t ∷ ts) us u rest = ap (λ q. some t ∷ q) (queue-append ts us u rest)

pub head-append : (ts us : List Token) (u : Token) → head (ts ++ us) u ≡ head ts (head us u)
head-append [] us u = refl
head-append (t ∷ ts) us u = refl

pub tail-append :
    (ts us : List Token) (u : Token) (rest : List (Option Token))
    → tail (ts ++ us) u rest ≡ tail ts (head us u) (tail us u rest)
tail-append [] us u rest = refl
tail-append (t ∷ ts) us u rest = queue-append ts us u rest

pub queue-head :
    (ts : List Token) (u : Token) (rest : List (Option Token))
    → queue ts u rest ≡ some (head ts u) ∷ tail ts u rest
queue-head [] u rest = refl
queue-head (t ∷ ts) u rest = refl

-- The state is at the tokens `ts`, behind which are `u` and the rest.
pub record At (ts : List Token) (u : Token) (more : List (Option Token)) (s : ParserState)
    : Type 0 where
  pub token : s.token ≡ head ts u
  pub rest : s.rest ≡ tail ts u more

-- The state `s'` is at `u`; the parser has written constants and code since `s`, and its flags are
-- those of `s`.
pub record After (u : Token) (more : List (Option Token)) (added : List Const)
    (code : List Instruction) (s s' : ParserState) : Type 0 where
  pub token : s'.token ≡ u
  pub rest : s'.rest ≡ more
  pub consts : s'.info.code.const_val ≡ s.info.code.const_val ++ added
  pub opcodes : s'.info.code.opcodes ≡ s.info.code.opcodes ++ code
  pub op_in : s'.disable_op_in_parse ≡ s.disable_op_in_parse
  pub tuple : s'.disable_expr_tuple_parse ≡ s.disable_expr_tuple_parse
  pub level : s'.lval_check.expr_level ≡ s.lval_check.expr_level

pub After-trans :
    {u v : Token} {rest rest' : List (Option Token)} {consts consts' : List Const}
    {code code' : List Instruction} {s s' s'' : ParserState}
    → After u rest consts code s s'
    → After v rest' consts' code' s' s''
    → After v rest' (consts ++ consts') (code ++ code') s s''
After-trans {consts} {consts'} {code} {code'} {s} {s'} {s''} h k = record {
  token = k.token;
  rest = k.rest;
  consts =
      k.consts
      ∙ ap (λ l. l ++ consts') h.consts
      ∙ append_assoc s.info.code.const_val consts consts';
  opcodes =
      k.opcodes ∙ ap (λ l. l ++ code') h.opcodes ∙ append_assoc s.info.code.opcodes code code';
  op_in = k.op_in ∙ h.op_in;
  tuple = k.tuple ∙ h.tuple;
  level = k.level ∙ h.level;
}

-- The state after `next`.
abbrev pub stepped : Token → List (Option Token) → ParserState → ParserState
stepped u rest s = record s { token = u; rest = rest; token_count = s.token_count + 1 }

pub next-stepped :
    (s : ParserState) {u : Token} {rest : List (Option Token)}
    → s.rest ≡ some u ∷ rest
    → next s ≡ done tt (stepped u rest s)
unfolding next
next-stepped s e = rw e refl

pub stepped-After :
    (u : Token) (rest : List (Option Token)) (s : ParserState)
    → After u rest [] [] s (stepped u rest s)
stepped-After u rest s = record {
  token = refl;
  rest = refl;
  consts = sym (append-nil _);
  opcodes = sym (append-nil _);
  op_in = refl;
  tuple = refl;
  level = refl;
}

-- A step that reads no token.
abbrev pub Stays : List Const → List Instruction → ParserState → ParserState → Type 0
Stays consts code s s' = After s.token s.rest consts code s s'

pub write_ins-Stays :
    (opcode exarg extra : ℕ) (s : ParserState)
    → (s' : ParserState) × (write_ins opcode exarg extra s ≡ done tt s')
      × Stays [] (build_ins opcode exarg extra ∷ []) s s'
unfolding write_ins
write_ins-Stays opcode exarg extra s = (
  _,
  refl,
  record {
    token = refl;
    rest = refl;
    consts = sym (append-nil _);
    opcodes = refl;
    op_in = refl;
    tuple = refl;
    level = refl;
  },
)

abbrev judged : ParserState → ParserState
judged s = record s { lval_check = record s.lval_check { can_be_left_val = false } }

pub judge-Stays :
    (s : ParserState)
    → (b : Bool) × (s' : ParserState) × (lval_check_judge false s ≡ done b s') × Stays [] [] s s'
unfolding lval_check_judge
judge-Stays s = elim (Bool-cases (lval_check_valid s)) [
  | inl e ↦ (
    true,
    judged s,
    if_true (lval_check_valid s) _ _ e,
    record {
      token = refl;
      rest = refl;
      consts = sym (append-nil _);
      opcodes = sym (append-nil _);
      op_in = refl;
      tuple = refl;
      level = refl;
    },
  )
  | inr e ↦ (
    false,
    s,
    if_false (lval_check_valid s) _ _ e,
    record {
      token = refl;
      rest = refl;
      consts = sym (append-nil _);
      opcodes = sym (append-nil _);
      op_in = refl;
      tuple = refl;
      level = refl;
    },
  )
]

-- From a step to one that comes before it and stays.
pub Stays-trans :
    {u : Token} {rest : List (Option Token)} {added added' : List Const}
    {code code' : List Instruction} {s s' s'' : ParserState}
    → After u rest added code s s'
    → Stays added' code' s' s''
    → After u rest (added ++ added') (code ++ code') s s''
Stays-trans h k = rw (h.token, h.rest) at (After-trans h k)

pub write_op-Stays :
    (op : ℕ) (s : ParserState)
    → (s' : ParserState) × (write_op op s ≡ done tt s')
      × Stays [] (build_ins bc_operator 0 op ∷ []) s s'
unfolding write_op
write_op-Stays op s =
    let (t, e, h) = write_ins-Stays bc_operator 0 op s in
    let (b, s', e', h') = judge-Stays t in
    (
      s',
      bind_done (write_ins bc_operator 0 op) (λ x. lval_check_judge false >> return tt) s e
          ∙ bind_done (lval_check_judge false) (λ x. return tt) t e',
      Stays-trans h h',
    )
