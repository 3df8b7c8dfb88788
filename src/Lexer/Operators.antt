-- ===== src/Lexer/Operators.antt =====
-- The operators: what is read is what the table of token names says.
use Prim.Native.String.{String}
use mathlib.Core.Path.{subst}
use python_lite.Base.{
  ℕ, ◌≡◌, ◌≢◌, refl, sym, ap, ◌∙◌, Bool, true, false, not, ◌||◌, List, [], ◌∷◌, Option, none, some,
  arith, ltb, ◌==◌, ==_iff, if◌then◌else◌, if_cases, codes,
}
use python_lite.Lexer.Token.{
  get_token_name, tk_op_le, tk_op_lshift, tk_de_lshift_eq, tk_op_ge, tk_op_rshift, tk_de_rshift_eq,
  tk_de_div_eq, tk_op_floordiv, tk_de_floordiv_eq, tk_de_mul_eq, tk_op_pow, tk_de_pow_eq, tk_op_eq,
  tk_de_plus_eq, tk_de_mod_eq, tk_de_matmul_eq, tk_de_bitand_eq, tk_de_bitor_eq, tk_de_bitxor_eq,
}
use python_lite.Lexer.State.{LexState, nextc}
use python_lite.Lexer.Scan.{success, get_token_1, get_token_2, read_minus}
use python_lite.Lexer.Next.{Outcome, returns, hangs, crashes, read_bang, read_operator}
use python_lite.Lexer.Valid.{IsValid, nextc-IsValid}
use python_lite.Lexer.Text.{◌∷∷◌, text, prepend, text-nextc}

pub name_codes : Option String → List ℕ
name_codes none = []
name_codes (some name) = codes name

-- How a token is written: a character's own code, or its name in the table.
unfoldable pub spelling : ℕ → List ℕ
unfolding get_token_name name_codes
spelling t = if ltb t 128 then t ∷ [] else name_codes (get_token_name t)

-- The text read is the token's spelling; only a '!' with no '=' behind it is refused.
abbrev pub Spelled : LexState → Outcome → Type 0
Spelled ls (returns success ls') = text ls ≡ prepend (spelling ls'.token_val) (text ls')
Spelled ls (returns code ls') = (ls.ch ≡ b'!') × (ls'.ch ≢ b'=') × (text ls ≡ b'!' ∷∷ text ls')
Spelled ls hangs = ⊥
Spelled ls crashes = ⊥

module _ {st : List ℕ} (ls : LexState) (v : IsValid st ls) where
  first : (x : ℕ) → ls.ch ≡ x → text ls ≡ x ∷∷ text (nextc ls)
  first x e = subst (λ z. text ls ≡ z ∷∷ text (nextc ls)) e (text-nextc ls v.stopped)

  second : (x y : ℕ) → ls.ch ≡ x → (nextc ls).ch ≡ y → text ls ≡ x ∷∷ y ∷∷ text (nextc (nextc ls))
  second x y e f =
      first x e
      ∙ ap (◌∷∷◌ x) (
          subst (λ z. text (nextc ls) ≡ z ∷∷ text (nextc (nextc ls))) f
            (text-nextc (nextc ls) (nextc-IsValid v).stopped))

  third :
      (x y z : ℕ)
      → ls.ch ≡ x
      → (nextc ls).ch ≡ y
      → (nextc (nextc ls)).ch ≡ z
      → text ls ≡ x ∷∷ y ∷∷ z ∷∷ text (nextc (nextc (nextc ls)))
  third x y z e f g =
      second x y e f
      ∙ ap (λ t. x ∷∷ y ∷∷ t)
          (subst (λ w. text (nextc (nextc ls)) ≡ w ∷∷ text (nextc (nextc (nextc ls)))) g
            (text-nextc (nextc (nextc ls)) (nextc-IsValid (nextc-IsValid v)).stopped))

  -- The text goes on behind a spelling that is known.
  spells :
      (w : List ℕ) (t : ℕ) (ls' : LexState)
      → text ls ≡ prepend w (text ls')
      → spelling t ≡ w
      → text ls ≡ prepend (spelling t) (text ls')
  spells w t ls' e s = subst (λ z. text ls ≡ prepend z (text ls')) (sym s) e

  get_token_1-Spelled :
      (x a b c : ℕ)
      → ls.ch ≡ x
      → spelling x ≡ x ∷ []
      → spelling a ≡ x ∷ b'=' ∷ []
      → spelling b ≡ x ∷ x ∷ []
      → spelling c ≡ x ∷ x ∷ b'=' ∷ []
      → Spelled ls (returns success (get_token_1 a b c ls))
  unfolding get_token_1
  get_token_1-Spelled x a b c e s0 sa sb sc =
      let P = λ (r : LexState). Spelled ls (returns success r) in
      let s1 = nextc ls in
      let s2 = nextc s1 in
      if_cases P (s1.ch == b'=') (λ h. spells _ a s2 (second x b'=' e ((==_iff _ _).0 h)) sa)
        (λ _.
          if_cases P (s1.ch == ls.ch)
            (λ h.
              let f = (==_iff s1.ch ls.ch).0 h ∙ e in
              if_cases P (s2.ch == b'=')
                (λ g. spells _ c (nextc s2) (third x x b'=' e f ((==_iff _ _).0 g)) sc)
                (λ _. spells _ b s2 (second x x e f) sb))
            (λ _. spells _ ls.ch s1 (first x e) (ap spelling e ∙ s0)))

  get_token_2-Spelled :
      (x a : ℕ)
      → ls.ch ≡ x
      → spelling x ≡ x ∷ []
      → spelling a ≡ x ∷ b'=' ∷ []
      → Spelled ls (returns success (get_token_2 a ls))
  unfolding get_token_2
  get_token_2-Spelled x a e s0 sa =
      let P = λ (r : LexState). Spelled ls (returns success r) in
      let s1 = nextc ls in
      if_cases P (s1.ch == b'=')
        (λ h. spells _ a (nextc s1) (second x b'=' e ((==_iff _ _).0 h)) sa)
        (λ _. spells _ ls.ch s1 (first x e) (ap spelling e ∙ s0))

  read_minus-Spelled : ls.ch ≡ b'-' → Spelled ls (returns success (read_minus ls))
  unfolding read_minus spelling
  read_minus-Spelled e =
      let P = λ (r : LexState). Spelled ls (returns success r) in
      let s1 = nextc ls in
      if_cases P (s1.ch == b'=') (λ h. second b'-' b'=' e ((==_iff _ _).0 h))
        (λ _.
          if_cases P (s1.ch == b'>') (λ h. second b'-' b'>' e ((==_iff _ _).0 h))
            (λ _. first b'-' e))

  read_bang-Spelled : ls.ch ≡ b'!' → Spelled ls (read_bang ls)
  unfolding read_bang spelling
  read_bang-Spelled e =
      let s1 = nextc ls in
      if_cases (Spelled ls) (not (s1.ch == b'=')) (λ h. (e, ground arith, first b'!' e))
        (λ h. second b'!' b'=' e (ground arith))

  one :
      (x a b c : ℕ) (y : Outcome)
      → spelling x ≡ x ∷ []
      → spelling a ≡ x ∷ b'=' ∷ []
      → spelling b ≡ x ∷ x ∷ []
      → spelling c ≡ x ∷ x ∷ b'=' ∷ []
      → ((ls.ch == x) ≡ false → Spelled ls y)
      → Spelled ls (if ls.ch == x then returns success (get_token_1 a b c ls) else y)
  one x a b c y s0 sa sb sc h =
      if_cases (Spelled ls) (ls.ch == x)
        (λ e. get_token_1-Spelled x a b c ((==_iff _ _).0 e) s0 sa sb sc) h

  two :
      (x a : ℕ) (y : Outcome)
      → spelling x ≡ x ∷ []
      → spelling a ≡ x ∷ b'=' ∷ []
      → ((ls.ch == x) ≡ false → Spelled ls y)
      → Spelled ls (if ls.ch == x then returns success (get_token_2 a ls) else y)
  two x a y s0 sa h =
      if_cases (Spelled ls) (ls.ch == x) (λ e. get_token_2-Spelled x a ((==_iff _ _).0 e) s0 sa) h

-- The characters that begin an operator.
abbrev pub is_operator : ℕ → Bool
is_operator c =
    c == b'<'
    || c == b'>'
    || c == b'/'
    || c == b'*'
    || c == b'='
    || c == b'+'
    || c == b'-'
    || c == b'%'
    || c == b'@'
    || c == b'&'
    || c == b'|'
    || c == b'^'
    || c == b'!'

-- In a valid state at a character that begins an operator: the token returned is spelled, by the
-- table of token names or by its own character, exactly by the text that was read; the only
-- refusal is a '!' that no '=' follows, and there the '!' has been read.
pub read_operator-Spelled :
    {st : List ℕ} (ls : LexState) (others : Outcome)
    → IsValid st ls
    → is_operator ls.ch ≡ true
    → Spelled ls (read_operator ls others)
unfolding read_operator spelling
read_operator-Spelled ls others v op =
    one ls v b'<' tk_op_le tk_op_lshift tk_de_lshift_eq _ refl refl refl refl (λ h0.
      one ls v b'>' tk_op_ge tk_op_rshift tk_de_rshift_eq _ refl refl refl refl (λ h1.
        one ls v b'/' tk_de_div_eq tk_op_floordiv tk_de_floordiv_eq _ refl refl refl refl (λ h2.
          one ls v b'*' tk_de_mul_eq tk_op_pow tk_de_pow_eq _ refl refl refl refl (λ h3.
            two ls v b'=' tk_op_eq _ refl refl (λ h4. two ls v b'+' tk_de_plus_eq _ refl refl (λ h5.
              if_cases (Spelled ls) (ls.ch == b'-')
                (λ e. read_minus-Spelled ls v ((==_iff _ _).0 e))
                (λ h6. two ls v b'%' tk_de_mod_eq _ refl refl (λ h7.
                  two ls v b'@' tk_de_matmul_eq _ refl refl (λ h8.
                    two ls v b'&' tk_de_bitand_eq _ refl refl (λ h9.
                      two ls v b'|' tk_de_bitor_eq _ refl refl (λ h10.
                        two ls v b'^' tk_de_bitxor_eq _ refl refl (λ h11.
                          if_cases (Spelled ls) (ls.ch == b'!')
                            (λ e. read_bang-Spelled ls v ((==_iff _ _).0 e))
                            (λ h12. absurd (ground arith))))))))))))))
