-- ===== src/Tests/LexerTheorems.antt =====
-- The theorems of the lexer at concrete inputs.
use python_lite.Base.{ℕ, ◌≡◌, ◌≢◌, ◌↔◌, refl, List, [], ◌∷◌, codes, arith, true, false, none}
use python_lite.Lexer.Token.{tk_kw_while}
use python_lite.Lexer.State.{LexState, lex_init, lex_reset, nextc, bytes_next, str_next}
use python_lite.Lexer.Keywords.{read_kw_or_id}
use python_lite.Lexer.Keywords.Switches.{Named}
use python_lite.Lexer.Keywords.Correct.{read_kw_or_id-table}
use python_lite.Lexer.Scan.{success, is_dec, skip_comment, read_run, ends_comment}
use python_lite.Lexer.Indent.{measure_in, measure_indent, compare_indent}
use python_lite.Lexer.Next.{Outcome, returns, hangs, crashes, lex_next, read_operator}
use python_lite.Lexer.Valid.{IsStack, IsValid, nextc-IsValid}
use python_lite.Lexer.Valid.Layout.{IsSafe}
use python_lite.Lexer.Valid.Calls.{lex_next-IsSafe}
use python_lite.Lexer.Session.{Session, started, called, restarted, Session-Good, Session-IsSafe}
use python_lite.Lexer.Operators.{is_operator, Spelled, read_operator-Spelled}
use python_lite.Lexer.Exits.{Measured, loops_exit}

-- A first line that is indented.
abbrev indented : List ℕ
indented = codes "  y ** 1\n"

lex_next-IsSafe_example : IsSafe (lex_init 0 indented).indent (lex_next 100 (lex_init 0 indented))
lex_next-IsSafe_example =
    lex_next-IsSafe 100 (lex_init 0 indented) (Session-Good (started 0 indented)).0
      (Session-Good (started 0 indented)).1

-- The state that a call leaves.
state_after : Outcome → LexState → LexState
state_after (returns code ls) other = ls
state_after hangs other = other
state_after crashes other = other

second : LexState
second = state_after (lex_next 100 (lex_init 0 indented)) (lex_init 0 indented)

second-Session : Session second
unfolding second state_after lex_next lex_init compare_indent measure_indent nextc
second-Session = called 100 success (started 0 indented) refl

Session-IsSafe_example :
    IsValid (lex_reset (codes "x") second).indent (lex_reset (codes "x") second)
    × IsStack (lex_reset (codes "x") second).indent
    × (lex_next 7 (lex_reset (codes "x") second) ≢ crashes)
Session-IsSafe_example = Session-IsSafe 7 (restarted (codes "x") second-Session)

shift : LexState
shift = nextc (lex_init 0 (codes "<<= 2"))

shift-IsValid : IsValid (0 ∷ []) shift
unfolding shift lex_init
shift-IsValid = nextc-IsValid (Session-Good (started 0 (codes "<<= 2"))).0

shift_starts : (is_operator shift.ch) ≡ true
unfolding shift lex_init nextc
shift_starts = refl

read_operator-Spelled_example : Spelled shift (read_operator shift hangs)
read_operator-Spelled_example = read_operator-Spelled shift hangs shift-IsValid shift_starts

read_kw_or_id-table_example :
    (read_kw_or_id (codes "while") ≡ tk_kw_while) ↔ Named tk_kw_while (codes "while")
read_kw_or_id-table_example =
    read_kw_or_id-table (codes "while") tk_kw_while (λ e. absurd (omega arith))

commented : LexState
commented = nextc (lex_init 0 (codes "# c"))

commented-IsValid : IsValid (0 ∷ []) commented
unfolding commented lex_init
commented-IsValid = nextc-IsValid (Session-Good (started 0 (codes "# c"))).0

loops_exit_example :
    Measured (measure_in none commented)
    × (ends_comment (skip_comment commented).ch ≡ true)
    × (is_dec (read_run is_dec bytes_next commented).ch ≡ false)
    × (is_dec (read_run is_dec str_next commented).ch ≡ false)
loops_exit_example = loops_exit {st = 0 ∷ []} commented is_dec refl commented-IsValid refl
