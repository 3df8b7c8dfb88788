-- ===== src/Lexer/Text.antt =====
-- The text that a lexer has before it, as an endless sequence of characters: the present one,
-- those to be replayed, the file's, and '\0' for ever.
use mathlib.Core.Path.{fun_ext}
use python_lite.Base.{ℕ, zero, suc, ◌≡◌, refl, sym, ap, ◌∙◌, false, List, [], ◌∷◌, arith}
use python_lite.Lexer.State.{LexState, nextc, pending}

abbrev pub Stream : Type 0
Stream = ℕ → ℕ

infixr 67 ◌∷∷◌
abbrev pub ◌∷∷◌ : ℕ → Stream → Stream
◌∷∷◌ c f zero = c
◌∷∷◌ c f (suc k) = f k

abbrev pub chars : List ℕ → Stream
chars [] k = 0
chars (c ∷ cs) k = (c ∷∷ chars cs) k

abbrev pub text : LexState → Stream
text ls = ls.ch ∷∷ chars (pending ls)

-- `w` before `f`.
abbrev pub prepend : List ℕ → Stream → Stream
prepend [] f = f
prepend (c ∷ w) f = c ∷∷ prepend w f

chars_nil : chars [] ≡ 0 ∷∷ chars []
chars_nil = fun_ext here
  where
    here : (k : ℕ) → chars [] k ≡ (0 ∷∷ chars []) k
    here zero = refl
    here (suc k) = refl

nextc-cons :
    (ls : LexState) (c : ℕ) (cs : List ℕ)
    → ls.record_on ≡ false
    → pending ls ≡ c ∷ cs
    → ((nextc ls).ch ≡ c) × (pending (nextc ls) ≡ cs)
unfolding nextc
nextc-cons ls c cs off e = ground arith

pub nextc_end :
    (ls : LexState)
    → ls.record_on ≡ false
    → pending ls ≡ []
    → ((nextc ls).ch ≡ 0) × (pending (nextc ls) ≡ [])
unfolding nextc
nextc_end ls off e = ground arith

chars-pending :
    (ls : LexState) (p : List ℕ) → ls.record_on ≡ false → pending ls ≡ p → chars p ≡ text (nextc ls)
chars-pending ls [] off e =
    let (c, p) = nextc_end ls off e in chars_nil ∙ (λ i. sym c i ∷∷ chars (sym p i))
chars-pending ls (c ∷ cs) off e =
    let (h, p) = nextc-cons ls c cs off e in λ i. sym h i ∷∷ chars (sym p i)

-- With recording off `nextc` drops one character of the text.
pub text-nextc : (ls : LexState) → ls.record_on ≡ false → text ls ≡ ls.ch ∷∷ text (nextc ls)
text-nextc ls off = ap (◌∷∷◌ ls.ch) (chars-pending ls (pending ls) off refl)
