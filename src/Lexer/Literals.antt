-- ===== src/Lexer/Literals.antt =====
-- The bodies of string literals: an escaped backslash before the closing quote, and a literal
-- that is never closed.
use python_lite.Base.{
  ℕ, zero, suc, ◌≡◌, refl, ◌∙◌, Bool, true, false, not, ◌&&◌, ◌||◌, List, [], ◌∷◌, arith, ltb, ◌==◌,
}
use python_lite.Lexer.State.{LexState, nextc, pending, bs_next}
use python_lite.Lexer.Strings.{Kind, next, body_step, runs, body_loop}
use python_lite.Lexer.Rounds.{body_loop-next}

-- A character that neither ends a literal nor a line, and that a literal of the type takes.
abbrev pub is_plain : Kind → ℕ → Bool
is_plain k c = not (c == b'\'' || c == b'"' || c == b'\n' || c == b'\r') && (k.is_str || ltb c 128)

abbrev pub AllPlain : Kind → List ℕ → Type 0
AllPlain k [] = Unit
AllPlain k (c ∷ cs) = (is_plain k c ≡ true) × AllPlain k cs

-- The state after one plain character.
abbrev pub take_char : Kind → LexState → LexState
take_char k ls = nextc (bs_next k.is_str ls.ch ls)

body_step-plain :
    (k : Kind) (escape : Bool) (ls : LexState)
    → is_plain k ls.ch ≡ true
    → body_step k escape ls ≡ next (ls.ch == b'\\') (take_char k ls)
unfolding body_step
body_step-plain k escape ls h = ground arith

body_step-backslash :
    (k : Kind) (escape : Bool) (ls : LexState)
    → ls.ch ≡ b'\\'
    → body_step k escape ls ≡ next true (take_char k ls)
unfolding body_step
body_step-backslash k escape ls e = ground arith

body_step-escaped :
    (k : Kind) (ls : LexState)
    → (ls.ch == b'\'' || ls.ch == b'"') ≡ true
    → body_step k true ls ≡ next false (take_char k ls)
unfolding body_step
body_step-escaped k ls h = ground arith

-- What `take_char` leaves, on a text with `c` next and on one at its end.
take_char-cons :
    (k : Kind) (ls : LexState) (c : ℕ) (cs : List ℕ)
    → ls.record_on ≡ false
    → pending ls ≡ c ∷ cs
    → ((take_char k ls).ch ≡ c)
      × (pending (take_char k ls) ≡ cs)
      × ((take_char k ls).record_on ≡ false)
unfolding nextc bs_next
take_char-cons k ls c cs off e = ground arith

take_char_end :
    (k : Kind) (ls : LexState)
    → ls.record_on ≡ false
    → pending ls ≡ []
    → ((take_char k ls).ch ≡ 0)
      × (pending (take_char k ls) ≡ [])
      × ((take_char k ls).record_on ≡ false)
unfolding nextc bs_next
take_char_end k ls off e = ground arith

body_loop-AllPlain :
    (fuel : ℕ) (k : Kind) (escape : Bool) (ls : LexState) (p : List ℕ)
    → ls.record_on ≡ false
    → is_plain k ls.ch ≡ true
    → pending ls ≡ p
    → AllPlain k p
    → body_loop fuel k escape ls ≡ runs
body_loop-AllPlain zero k escape ls p off h e a = unfold body_loop in refl
body_loop-AllPlain (suc fuel) k escape ls [] off h e a =
    let (c, q, off') = take_char_end k ls off e in
    body_loop-next fuel k escape ls (body_step-plain k escape ls h)
    ∙ body_loop-AllPlain fuel k _ (take_char k ls) [] off' (ground arith) q tt
body_loop-AllPlain (suc fuel) k escape ls (d ∷ p) off h e a =
    let (c, q, off') = take_char-cons k ls d p off e in
    body_loop-next fuel k escape ls (body_step-plain k escape ls h)
    ∙ body_loop-AllPlain fuel k _ (take_char k ls) p off' (rw c a.0) q a.1

-- A literal of either type and length that has no quote, no line end and, for bytes, no character
-- above 127 before the end of the file is read for ever, where no recording is on: with any fuel
-- the loop over its body is still running.
pub body_loop_unterminated :
    (fuel : ℕ) (k : Kind) (escape : Bool) (ls : LexState)
    → ls.record_on ≡ false
    → AllPlain k (ls.ch ∷ pending ls)
    → body_loop fuel k escape ls ≡ runs
body_loop_unterminated fuel k escape ls off a =
    body_loop-AllPlain fuel k escape ls (pending ls) off a.0 refl a.1

-- In a short or long literal, after two backslashes the quote does not close it: whatever follows, the three
-- characters are put into the buffer and the loop goes on behind them.
pub body_loop_backslashes :
    (fuel : ℕ) (k : Kind) (escape : Bool) (ls : LexState) (rest : List ℕ)
    → ls.record_on ≡ false
    → ls.ch ≡ b'\\'
    → (k.sign == b'\'' || k.sign == b'"') ≡ true
    → pending ls ≡ b'\\' ∷ k.sign ∷ rest
    → (body_loop (suc (suc (suc fuel))) k escape ls
        ≡ body_loop fuel k false (take_char k (take_char k (take_char k ls))))
body_loop_backslashes fuel k escape ls rest off e s p =
    let s1 = take_char k ls in
    let s2 = take_char k s1 in
    let (c1, p1, off1) = take_char-cons k ls b'\\' (k.sign ∷ rest) off p in
    let (c2, p2, off2) = take_char-cons k s1 k.sign rest off1 p1 in
    body_loop-next _ k escape ls (body_step-backslash k escape ls e)
    ∙ body_loop-next _ k true s1 (body_step-backslash k true s1 c1)
    ∙ body_loop-next fuel k true s2 (body_step-escaped k s2 (rw c2 s))
