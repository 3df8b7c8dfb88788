-- ===== src/Lexer/Lines.antt =====
-- The line counter at a line end of two characters, "\r\n".
use python_lite.Base.{
  ℕ, suc, ◌+◌, ◌≡◌, ◌∙◌, List, ◌∷◌, ◌⊎◌, inl, inr, true, false, some, arith, ◌==◌,
}
use python_lite.Base.Int.{pos}
use python_lite.Lexer.State.{LexState, nextc, pending}
use python_lite.Lexer.Strings.{new_line}
use python_lite.Lexer.Indent.{indent_step}
use python_lite.Lexer.Next.{again, scan_step, scan_loop}

scan_loop-again :
    (fuel rounds : ℕ) (ls : LexState) {ls' : LexState}
    → scan_step fuel ls ≡ again ls'
    → scan_loop fuel (suc rounds) ls ≡ scan_loop fuel rounds ls'
unfolding scan_loop
scan_loop-again fuel rounds ls e = rw (e, scan_loop)

-- The state behind a line end inside brackets.
abbrev skip_line_end : LexState → LexState
skip_line_end ls = nextc (new_line ls)

scan_step_line_end :
    (fuel n : ℕ) (ls : LexState)
    → (ls.ch == b'\r') ≡ true ⊎ (ls.ch == b'\n') ≡ true
    → ls.inside_couples ≡ pos (suc n)
    → scan_step fuel ls ≡ again (skip_line_end ls)
unfolding scan_step
scan_step_line_end fuel n ls h e = ground arith

skip_line_end-cons :
    (ls : LexState) (c : ℕ) (rest : List ℕ)
    → ls.record_on ≡ false
    → pending ls ≡ c ∷ rest
    → ((skip_line_end ls).ch ≡ c)
      × (pending (skip_line_end ls) ≡ rest)
      × ((skip_line_end ls).record_on ≡ false)
      × ((skip_line_end ls).inside_couples ≡ ls.inside_couples)
      × ((skip_line_end ls).linenumber ≡ ls.linenumber + 1)
unfolding nextc
skip_line_end-cons ls c rest off e = ground arith

skip_line_end-linenumber :
    (ls : LexState) → ls.record_on ≡ false → (skip_line_end ls).linenumber ≡ ls.linenumber + 1
unfolding nextc
skip_line_end-linenumber ls off = ground arith

nextc-linenumber : (ls : LexState) → ls.record_on ≡ false → (nextc ls).linenumber ≡ ls.linenumber
unfolding nextc
nextc-linenumber ls off = ground arith

indent_step_cr :
    (lastch cur : ℕ) (ls : LexState)
    → ls.ch ≡ b'\r'
    → (skip_line_end ls).ch ≡ b'\n'
    → indent_step lastch cur ls ≡ some (0, nextc (skip_line_end ls))
unfolding indent_step
indent_step_cr lastch cur ls e c = ground arith

-- At "\r\n" the token loop inside brackets counts two lines, and the loop at the start of a line
-- counts one: the first goes on, behind both characters, with the line number raised by 2, the
-- second with the line number raised by 1.
pub crlf_lines :
    (fuel rounds lastch cur n : ℕ) (ls : LexState) (rest : List ℕ)
    → ls.record_on ≡ false
    → ls.ch ≡ b'\r'
    → pending ls ≡ b'\n' ∷ rest
    → ls.inside_couples ≡ pos (suc n)
    → (inside : LexState) × (start : LexState) × (scan_loop fuel (suc (suc rounds)) ls
        ≡ scan_loop fuel rounds inside)
      × (inside.linenumber ≡ ls.linenumber + 2)
      × (indent_step lastch cur ls ≡ some (0, start))
      × (start.linenumber ≡ ls.linenumber + 1)
crlf_lines fuel rounds lastch cur n ls rest off e p b =
    let s1 = skip_line_end ls in
    let (c, q, off1, b1, l1) = skip_line_end-cons ls b'\n' rest off p in
    (
      skip_line_end s1,
      nextc s1,
      scan_loop-again fuel (suc rounds) ls (scan_step_line_end fuel n ls (inl (ground arith)) b)
          ∙ scan_loop-again fuel rounds s1
              (scan_step_line_end fuel n s1 (inr (ground arith)) (b1 ∙ b)),
      omega (arith, l1, skip_line_end-linenumber s1 off1),
      indent_step_cr lastch cur ls e c,
      nextc-linenumber s1 off1 ∙ l1,
    )
