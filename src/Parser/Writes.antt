-- ===== src/Parser/Writes.antt =====
-- The contract of what the parser writes.
use python_lite.Base.{
  ℕ, zero, suc, ◌-◌, ◌%◌, ◌||◌, ◌≤◌, ◌<◌, ◌≡◌, ◌≢◌, refl, ap, sym, ◌∙◌, Bool, true, false, List, [],
  ◌∷◌, ◌++◌, Option, none, some, leb, ◌==◌, if◌then◌else◌, length, get_elem?, set, arith, ◌⊎◌, inl,
  inr, length-append,
}
use python_lite.Lexer.Token.{tk_end}
use python_lite.Vm.Codes.{
  Instruction, build_ins, bc_loadnone, bc_loadconst, bc_ph_break, bc_ph_continue,
}
use python_lite.Parser.State.{
  Const, Token, ParserInfo, CodeObject, ParserState, Parse, done, M, ◌>>=◌, modify, next, accept,
  lval_check_judge, lval_check_valid, invalid_syntax,
}
use python_lite.Parser.Emit.{
  write_ins, store_const, store_found, sload_const, sload_none, list_index_strict, opcode_top,
  opcode_get, opcode_change_top, opcode_change, opcode_at, opcode_read, with_code,
}
use python_lite.Parser.Contract.{
  left, is_placeholder, Bounded, Keeps, Keeps-refl, Safe, Ends, returned, unset, next-Keeps,
  Ends-bind, Ends-after,
}
use python_lite.Parser.Rules.{peeks, branch, fails, then_}

known_ne : (s : ParserState) {tk : ℕ} → s.token.val ≡ tk → tk ≢ tk_end → s.token.val ≢ tk_end
known_ne s e h i = h (sym e ∙ i)

Ends-loosen :
    {A F : Type 0} {k : ℕ} {s : ParserState} {r : Parse A}
    → k ≤ 1
    → Ends F (λ _. Keeps 1 s) r
    → Ends F (λ _. Keeps k s) r
Ends-loosen one h = Ends-after (Keeps-refl _) (omega arith) h

module _ {B F : Type 0} {b : ℕ} {tk k : ℕ} where
  -- The current token is read, and then the rest of the code runs with fewer.
  pub reads :
      (f : Unit {0} → M B)
      → tk ≢ tk_end
      → leb k 1 ≡ true
      → ((a : ℕ) → a < b → Safe F none a 0 (f tt))
      → Safe F (some tk) b k (next >>= f)
  reads f e one h = record {
    run = λ s known le. Ends-bind f (next-Keeps s (known_ne s known e)) λ x t keeps.
        Ends-after keeps (ground arith)
          ((h (left t) (omega (arith, keeps.reads))).run t tt (omega arith));
  }

pub next-Safe : {F : Type 0} {b tk k : ℕ} → tk ≢ tk_end → leb k 1 ≡ true → Safe F (some tk) b k next
next-Safe e one = record {
  run = λ s known le. Ends-loosen (ground arith) (next-Keeps s (known_ne s known e));
}

-- A test for a token that is not the end.
pub ne_end : {tk : ℕ} (t : ℕ) → (t == tk_end) ≡ false → (tk == t) ≡ true → tk ≢ tk_end
ne_end t d e h = ground arith

pub accept-Safe :
    {F : Type 0} {c : Option ℕ} {b k : ℕ} (t : ℕ)
    → (t == tk_end) ≡ false
    → leb k 1 ≡ true
    → Safe F c b k (accept t)
unfolding accept
accept-Safe t d one =
    peeks _ λ tk. branch (tk == t) (λ e. next-Safe (ne_end t d e) one) (λ _. fails invalid_syntax)

get_elem?-snoc :
    (l : List Instruction) (x : Instruction) (i : ℕ) {ins : Instruction}
    → get_elem? (l ++ x ∷ []) i ≡ some ins
    → (get_elem? l i ≡ some ins) ⊎ (x ≡ ins)
get_elem?-snoc [] x zero e = inr (cc)
get_elem?-snoc [] x (suc i) e = cc
get_elem?-snoc (y ∷ l) x zero e = inl e
get_elem?-snoc (y ∷ l) x (suc i) e = get_elem?-snoc l x i e

pub Bounded-snoc :
    (bound : ℕ → ℕ) (l : List Instruction) (x : Instruction)
    → is_placeholder x ≡ false
    → Bounded bound l
    → Bounded bound (l ++ x ∷ [])
Bounded-snoc bound l x plain h i ins e p = elim (get_elem?-snoc l x i e) [
  | inl old ↦ h i ins old p
  | inr new ↦ absurd (clash new)
]
  where
    clash : x ≡ ins → ⊥
    clash new = cc

-- A change of an instruction that makes no placeholder and keeps its loop.
abbrev pub Mild : (Instruction → Instruction) → Type 0
Mild f =
    (ins : Instruction)
    → is_placeholder (f ins) ≡ true
    → (is_placeholder ins ≡ true) × ((f ins).extra ≡ ins.extra)

get_elem?-set :
    (l : List Instruction) (p : ℕ) (x : Instruction) (i : ℕ) {ins : Instruction}
    → get_elem? (set l p x) i ≡ some ins
    → (get_elem? l i ≡ some ins) ⊎ ((i ≡ p) × (x ≡ ins))
get_elem?-set [] p x i e = inl e
get_elem?-set (y ∷ l) zero x zero e = inr (refl, cc)
get_elem?-set (y ∷ l) zero x (suc i) e = inl e
get_elem?-set (y ∷ l) (suc p) x zero e = inl e
get_elem?-set (y ∷ l) (suc p) x (suc i) e = elim (get_elem?-set l p x i e) [
  | inl old ↦ inl old
  | inr (at, new) ↦ inr (ap suc at, new)
]

pub length-set : (l : List Instruction) (p : ℕ) (x : Instruction) → length (set l p x) ≡ length l
length-set [] p x = refl
length-set (y ∷ l) zero x = refl
length-set (y ∷ l) (suc p) x = ap suc (length-set l p x)

Bounded-set :
    (bound : ℕ → ℕ) (l : List Instruction) (p : ℕ) (f : Instruction → Instruction)
    (old : Instruction)
    → Mild f
    → get_elem? l p ≡ some old
    → Bounded bound l
    → Bounded bound (set l p (f old))
Bounded-set bound l p f old mild here h i ins e q = elim (get_elem?-set l p (f old) i e) [
  | inl same ↦ h i ins same q
  | inr (at, new) ↦
      let q' : is_placeholder (f old) ≡ true = ap is_placeholder new ∙ q in
      let m : (is_placeholder old ≡ true) × ((f old).extra ≡ old.extra) = mild old q' in
      let h' : (0 < old.extra) × (old.extra ≤ bound p) = h p old here m.0 in
      let e' : ins.extra ≡ old.extra = ap (λ (y : Instruction). y.extra) (sym new) ∙ m.1 in
      (omega (arith, h'.0, e'), omega (arith, h'.1, e', ap bound at))
]

-- A change of the code that adds no placeholder.
pub Keeps-code :
    (s : ParserState) (f : CodeObject → CodeObject)
    → length s.info.code.opcodes ≤ length (f s.info.code).opcodes
    → ((bound : ℕ → ℕ) → Bounded bound s.info.code.opcodes → Bounded bound (f s.info.code).opcodes)
    → Keeps 0 s (with_code f s)
Keeps-code s f grows bounded = record {
  reads = omega arith;
  depth = refl;
  around = refl;
  startcode = refl;
  cache = refl;
  grows = grows;
  bounded = bounded;
}

-- `t` is `s` but for flags.
abbrev pub SameCode : ParserState → ParserState → Type 0
SameCode s t =
    (t.token ≡ s.token)
    × (t.rest ≡ s.rest)
    × (t.info ≡ s.info)
    × (t.prev ≡ s.prev)
    × (t.lval_check.startcode ≡ s.lval_check.startcode)
    × (t.lval_check.bc_cache ≡ s.lval_check.bc_cache)

pub SameCode-Keeps : {s t : ParserState} → SameCode s t → Keeps 0 s t
SameCode-Keeps {s} {t} (token, rest, info, prev, startcode, cache) = record {
  reads = ground (arith, ap (λ (k : Token). k.val) token, ap (length {A = Option Token}) rest);
  depth = cc;
  around = prev;
  startcode = startcode;
  cache = cache;
  grows = omega (arith, ap (λ (i : ParserInfo). length i.code.opcodes) info);
  bounded = λ bound h. rw info h;
}

-- `is_placeholder` of an instruction that `build_ins` makes.
abbrev pub is_placeholder_code : ℕ → Bool
is_placeholder_code opcode = opcode % 256 == bc_ph_break || opcode % 256 == bc_ph_continue

module _ {F : Type 0} {c : Option ℕ} {b : ℕ} where
  pub write_ins-Safe :
      (opcode exarg extra : ℕ)
      → is_placeholder_code opcode ≡ false
      → Safe F c b 0 (write_ins opcode exarg extra)
  unfolding write_ins build_ins
  write_ins-Safe opcode exarg extra plain = record {
    run = λ s known le. returned (
        Keeps-code s
          (λ c. record c {
            opcodes = c.opcodes ++ build_ins opcode exarg extra ∷ [];
            lnotab = c.lnotab ++ s.token.linenumber ∷ [];
          })
          (omega (arith, length-append {0} s.info.code.opcodes (build_ins opcode exarg extra ∷ [])))
          (λ bound h. Bounded-snoc bound s.info.code.opcodes _ plain h));
  }

  pub opcode_change-Safe :
      (pos : ℕ) (f : Instruction → Instruction) → Mild f → Safe F c b 0 (opcode_change pos f)
  unfolding opcode_change
  opcode_change-Safe pos f mild = record {
    run = λ s known le. changed s (get_elem? s.info.code.opcodes pos) refl;
  }
    where
      changed :
          (s : ParserState) (r : Option Instruction)
          → get_elem? s.info.code.opcodes pos ≡ r
          → Ends F (λ _. Keeps 0 s) (opcode_at r pos f s)
      changed s none e = unset
      changed s (some ins) e = returned (
          Keeps-code s (λ c. record c { opcodes = set c.opcodes pos (f ins) })
            (omega (arith, length-set s.info.code.opcodes pos (f ins)))
            (λ bound h. Bounded-set bound s.info.code.opcodes pos f ins mild e h))

  pub opcode_change_top-Safe :
      (f : Instruction → Instruction) → Mild f → Safe F c b 0 (opcode_change_top f)
  unfolding opcode_change_top
  opcode_change_top-Safe f mild = record {
    run = λ s known le. (opcode_change-Safe (length s.info.code.opcodes - 1) f mild).run s known le;
  }

  pub opcode_get-Safe : (pos : ℕ) → Safe F c b 0 (opcode_get pos)
  unfolding opcode_get
  opcode_get-Safe pos = record { run = λ s known le. found s (get_elem? s.info.code.opcodes pos) }
    where
      found : (s : ParserState) (r : Option Instruction) → Ends F (λ _. Keeps 0 s) (opcode_read r s)
      found s none = unset
      found s (some ins) = returned (Keeps-refl s)

  pub opcode_top-Safe : Safe F c b 0 opcode_top
  unfolding opcode_top
  opcode_top-Safe = record {
    run = λ s known le. (opcode_get-Safe (length s.info.code.opcodes - 1)).run s known le;
  }

  pub modify-Safe :
      (g : ParserState → ParserState)
      → ((s : ParserState) → Keeps 0 s (g s))
      → Safe F c b 0 (modify g)
  modify-Safe g h = record { run = λ s known le. returned (h s) }

  -- A change of flags only.
  pub flags-Safe :
      (g : ParserState → ParserState)
      → ((s : ParserState) → SameCode s (g s))
      → Safe F c b 0 (modify g)
  flags-Safe g h = modify-Safe g λ s. SameCode-Keeps (h s)

  pub lval_check_judge-Safe : (v : Bool) → Safe F c b 0 (lval_check_judge v)
  unfolding lval_check_judge
  lval_check_judge-Safe v = record { run = λ s known le. judged s (lval_check_valid s) }
    where
      judged :
          (s : ParserState) (t : Bool)
          → Ends F
              (λ _. Keeps 0 s)
              ((if t
                then done true
                    (record s { lval_check = record s.lval_check { can_be_left_val = v } })
                else done false s))
      judged s true = returned (SameCode-Keeps (refl, refl, refl, refl, refl, refl))
      judged s false = returned (Keeps-refl s)

  module _ (same : Const → Const → Bool) where
    pub store_const-Safe : (obj : Const) → Safe F c b 0 (store_const same obj)
    unfolding store_const
    store_const-Safe obj = record {
      run = λ s known le. stored s (list_index_strict same s.info.code.const_val obj);
    }
      where
        stored :
            (s : ParserState) (r : Option ℕ) → Ends F (λ _. Keeps 0 s) (store_found same obj r s)
        stored s none = returned (
            Keeps-code s (λ c. record c { const_val = c.const_val ++ obj ∷ [] }) (omega arith)
              (λ bound h. h))
        stored s (some i) = returned (Keeps-refl s)

pub sload_none-Safe : {F : Type 0} {c : Option ℕ} {b : ℕ} → Safe F c b 0 sload_none
unfolding sload_none
sload_none-Safe = write_ins-Safe bc_loadnone 0 0 refl

module _ {F : Type 0} {c : Option ℕ} {b : ℕ} (same : Const → Const → Bool) where
  load-Safe : (obj : Const) → Safe F c b 0 (do i ← store_const same obj; write_ins bc_loadconst 0 i)
  load-Safe obj = then_ _ _ (store_const-Safe same obj) λ i. write_ins-Safe bc_loadconst 0 i refl

  pub sload_const-Safe : (obj : Const) → Safe F c b 0 (sload_const same obj)
  unfolding sload_const
  sload_const-Safe Const.none_obj = write_ins-Safe bc_loadnone 0 0 refl
  sload_const-Safe (Const.bool_obj x) = load-Safe (Const.bool_obj x)
  sload_const-Safe (Const.value x) = load-Safe (Const.value x)
  sload_const-Safe (Const.fraction x) = load-Safe (Const.fraction x)
  sload_const-Safe Const.lambda_name = load-Safe Const.lambda_name
  sload_const-Safe Const.base_exception = load-Safe Const.base_exception
  sload_const-Safe (Const.params x) = load-Safe (Const.params x)
  sload_const-Safe (Const.code x) = load-Safe (Const.code x)
