-- ===== src/Vm/Names.antt =====
-- The names of the operators against the spelling of the tokens.
use python_lite.Base.{
  ℕ, zero, suc, ◌<◌, ◌≡◌, ◌≢◌, ◌⊎◌, refl, not, Bool, true, false, ◌&&◌, ◌||◌, List, [], ◌∷◌, ◌++◌,
  arith, ==_iff, if◌then◌else◌, ltb, ◌==◌, Bool-cases, inl, inr,
}
use python_lite.Lexer.Token.{tk_kw_or}
use python_lite.Lexer.Operators.{spelling, name_codes}
use python_lite.Vm.Ops.{get_op_name, token_to_op_val, token_de_to_op_val}

same_codes : List ℕ → List ℕ → Bool
same_codes [] [] = true
same_codes (a ∷ as') (b ∷ bs) = a == b && same_codes as' bs
same_codes [] (b ∷ bs) = false
same_codes (a ∷ as') [] = false

same_codes-eq : (xs ys : List ℕ) → same_codes xs ys ≡ true → xs ≡ ys
unfolding same_codes
same_codes-eq [] [] h = refl
same_codes-eq (a ∷ xs) (b ∷ ys) h = ground (arith, same_codes-eq xs ys)
same_codes-eq [] (b ∷ ys) h = cc
same_codes-eq (a ∷ xs) [] h = cc

-- No token below the bound fails the test.
passes : (ℕ → Bool) → ℕ → Bool
passes test zero = true
passes test (suc last) = let lower = passes test last in if test last then lower else false

passes-lt : (test : ℕ → Bool) (size t : ℕ) → t < size → passes test size ≡ true → test t ≡ true
unfolding passes
passes-lt test zero t small table = absurd (omega arith)
passes-lt test (suc last) t small table = elim (Bool-cases (t == last)) [
  | inl e ↦ rw ((==_iff t last).0 e) (ground arith)
  | inr e ↦ ground (arith, passes-lt test last t)
]

-- The tokens that have an operator: those of a value but 0, and `or`, whose operator is 0.
abbrev pub HasOp : ℕ → Type 0
HasOp t = (token_to_op_val t ≢ 0) ⊎ (t ≡ tk_kw_or)

-- The tests of the two tables at one token.
named : ℕ → Bool
unfolding same_codes
named t =
    (token_to_op_val t == 0 && not (t == tk_kw_or))
    || (t == b'~' || same_codes (name_codes (get_op_name (token_to_op_val t))) (spelling t))

named_de : ℕ → Bool
unfolding same_codes
named_de t =
    token_de_to_op_val t == 0
    || same_codes (name_codes (get_op_name (token_de_to_op_val t)) ++ b'=' ∷ []) (spelling t)

table : passes named 200 ≡ true
unfolding passes named spelling get_op_name token_to_op_val
table = refl

table_de : passes named_de 200 ≡ true
unfolding passes named_de spelling get_op_name token_de_to_op_val
table_de = refl

beyond : (t : ℕ) → ltb t 200 ≡ false → token_to_op_val t ≡ 0
unfolding token_to_op_val
beyond t h = ground arith

beyond_de : (t : ℕ) → ltb t 200 ≡ false → token_de_to_op_val t ≡ 0
unfolding token_de_to_op_val
beyond_de t h = ground arith

HasOp-small : (t : ℕ) → HasOp t → ltb t 200 ≡ true
HasOp-small t (inl h) = elim (Bool-cases (ltb t 200)) [
  | inl small ↦ small
  | inr large ↦ absurd (h (beyond t large))
]
HasOp-small t (inr e) = ground arith

HasOp-named : (t : ℕ) → HasOp t → (token_to_op_val t == 0 && not (t == tk_kw_or)) ≡ false
HasOp-named t (inl h) = ground arith
HasOp-named t (inr e) = ground arith

-- A token that has an operator, `or` among them and '~' not, is spelled by the name of the operator;
-- and one that has an augmented assignment is spelled by the name of its operator and '='.
pub get_op_name-token :
    (t d : ℕ)
    → HasOp t
    → t ≢ b'~'
    → token_de_to_op_val d ≢ 0
    → (name_codes (get_op_name (token_to_op_val t)) ≡ spelling t)
      × (name_codes (get_op_name (token_de_to_op_val d)) ++ b'=' ∷ [] ≡ spelling d)
unfolding named named_de
get_op_name-token t d h k g = (
  same_codes-eq _ _ (
      let at = passes-lt named 200 t (ground (arith, HasOp-small t h)) table in
      ground (arith, HasOp-named t h)),
  elim (Bool-cases (ltb d 200)) [
    | inl small ↦
        same_codes-eq _ _
          (let at = passes-lt named_de 200 d (ground arith) table_de in ground arith)
    | inr large ↦ absurd (g (beyond_de d large))
  ],
)
