-- ===== src/Parser/Contract.antt =====
-- What every function of the parser keeps, whatever the tokens are, and the rules by which that is
-- put together along the code.
use python_lite.Base.{
  ℕ, ◌+◌, ◌≤◌, ◌<◌, ◌≡◌, ◌≢◌, refl, Bool, true, List, [], ◌∷◌, Option, none, some, ◌==◌,
  if◌then◌else◌, length, get_elem?, arith, ap, ◌||◌,
}
use python_lite.Lexer.Token.{tk_end}
use python_lite.Vm.Codes.{Instruction, bc_ph_break, bc_ph_continue}
use python_lite.Parser.State.{
  ParserState, ParseError, Parse, done, error, undefined, out_of_fuel, M, next, advance, Token,
}

-- How many tokens are left, the current one included.
abbrev pub left : ParserState → ℕ
left ps = length ps.rest + (if ps.token.val == tk_end then 0 else 1)

abbrev pub is_placeholder : Instruction → Bool
is_placeholder ins = ins.code == bc_ph_break || ins.code == bc_ph_continue

-- A placeholder at position `i` belongs to one of the first `bound i` loops around it.
abbrev pub Bounded : (ℕ → ℕ) → List Instruction → Type 0
Bounded bound l =
    (i : ℕ) (ins : Instruction)
    → get_elem? l i ≡ some ins
    → is_placeholder ins ≡ true
    → (0 < ins.extra) × (ins.extra ≤ bound i)

-- From `ps` to `ps'` at least `k` tokens are read; the loops around, the functions around, the
-- start of the left value and its cache are the same; no code goes away and no placeholder comes
-- to it.
pub record Keeps (k : ℕ) (ps ps' : ParserState) : Type 0 where
  pub reads : left ps' + k ≤ left ps
  pub depth : ps'.info.loop_depth ≡ ps.info.loop_depth
  pub around : ps'.prev ≡ ps.prev
  pub startcode : ps'.lval_check.startcode ≡ ps.lval_check.startcode
  pub cache : ps'.lval_check.bc_cache ≡ ps.lval_check.bc_cache
  pub grows : length ps.info.code.opcodes ≤ length ps'.info.code.opcodes
  pub bounded :
      (bound : ℕ → ℕ) → Bounded bound ps.info.code.opcodes → Bounded bound ps'.info.code.opcodes

pub Keeps-trans :
    {i j k : ℕ} {s t u : ParserState} → Keeps i s t → Keeps j t u → k ≤ i + j → Keeps k s u
Keeps-trans a b le = record {
  reads = omega (arith, a.reads, b.reads);
  depth = cc (a.depth, b.depth);
  around = cc (a.around, b.around);
  startcode = cc (a.startcode, b.startcode);
  cache = cc (a.cache, b.cache);
  grows = omega (arith, a.grows, b.grows);
  bounded = λ bound h. b.bounded bound (a.bounded bound h);
}

-- What a call ends with: `F` is what is known of a call that needs more fuel.
pub data Ends {A : Type 0} (F : Type 0) (Q : A → ParserState → Type 0) : Parse A → Type 0 where
  returned : {a : A} {s : ParserState} → Q a s → Ends F Q (done a s)
  failed : {e : ParseError} → Ends F Q (error e)
  unset : Ends F Q undefined
  short : F → Ends F Q out_of_fuel

-- From a state with at most `b` tokens left, and the current one known or not, `m` keeps to the
-- contract.
abbrev pub Known : Option ℕ → ParserState → Type 0
Known none s = Unit {0}
Known (some tk) s = s.token.val ≡ tk

pub record Safe {A : Type 0} (F : Type 0) (c : Option ℕ) (b k : ℕ) (m : M A) : Type 0 where
  pub run : (s : ParserState) → Known c s → left s ≤ b → Ends F (λ _. Keeps k s) (m s)

pub Ends-bind :
    {A B : Type 0} {F : Type 0} {P : A → ParserState → Type 0} {Q : B → ParserState → Type 0}
    {r : Parse A} (f : A → M B)
    → Ends F P r
    → ((a : A) (s : ParserState) → P a s → Ends F Q (f a s))
    → Ends F Q (elim r [
      | done a s ↦ f a s
      | error e ↦ error e
      | undefined ↦ undefined
      | out_of_fuel ↦ out_of_fuel
    ])
Ends-bind f (returned q) h = h _ _ q
Ends-bind f failed h = failed
Ends-bind f unset h = unset
Ends-bind f (short x) h = short x

pub Ends-after :
    {A : Type 0} {F : Type 0} {i j k : ℕ} {s t : ParserState} {r : Parse A}
    → Keeps i s t
    → k ≤ i + j
    → Ends F (λ _. Keeps j t) r
    → Ends F (λ _. Keeps k s) r
Ends-after a le (returned q) = returned (Keeps-trans a q le)
Ends-after a le failed = failed
Ends-after a le unset = unset
Ends-after a le (short x) = short x

pub Keeps-refl : (s : ParserState) → Keeps 0 s s
Keeps-refl s = record {
  reads = omega arith;
  depth = refl;
  around = refl;
  startcode = refl;
  cache = refl;
  grows = omega arith;
  bounded = λ bound h. h;
}

-- A state after `next`, where at least `k` tokens were read.
advance-Keeps :
    {F : Type 0} (k : ℕ) (s : ParserState)
    → length s.rest + k ≤ left s
    → (rest : List (Option Token)) → s.rest ≡ rest
    → Ends F (λ _. Keeps k s) (advance s rest)
advance-Keeps k s le [] e = returned (record {
  reads = ground (arith, ap (length {A = Option Token}) e);
  depth = refl;
  around = refl;
  startcode = refl;
  cache = refl;
  grows = omega arith;
  bounded = λ bound h. h;
})
advance-Keeps k s le (none ∷ rest) e = failed
advance-Keeps k s le (some t ∷ rest) e = returned (record {
  reads = ground (arith, ap (length {A = Option Token}) e);
  depth = refl;
  around = refl;
  startcode = refl;
  cache = refl;
  grows = omega arith;
  bounded = λ bound h. h;
})

-- Reading a token, where there is one.
pub next-Keeps :
    {F : Type 0} (s : ParserState) → s.token.val ≢ tk_end → Ends F (λ _. Keeps 1 s) (next s)
unfolding next
next-Keeps s known = advance-Keeps 1 s (ground arith) s.rest refl

pub next_any-Safe : {F : Type 0} {c : Option ℕ} {b : ℕ} → Safe F c b 0 next
unfolding next
next_any-Safe = record { run = λ s known le. advance-Keeps 0 s (omega arith) s.rest refl }
