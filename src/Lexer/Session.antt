-- ===== src/Lexer/Session.antt =====
-- What a program may do with a lexer: initialise it, ask for tokens, and point it at a new file.
use python_lite.Base.{ℕ, ◌≡◌, ◌≢◌, List, arith}
use python_lite.Lexer.State.{LexState, lex_init, lex_reset}
use python_lite.Lexer.Scan.{Code}
use python_lite.Lexer.Next.{returns, crashes, lex_next}
use python_lite.Lexer.Valid.{IsStack, IsValid}
use python_lite.Lexer.Valid.Calls.{lex_next-IsSafe}

-- The states reached by `pylt_lex_init`, `pylt_lex_next` and `pylt_lex_reset`.
pub data Session : LexState → Type 0 where
  started : (ch : ℕ) (input : List ℕ) → Session (lex_init ch input)
  called :
      {ls : LexState} (fuel : ℕ) (code : Code) {ls' : LexState}
      → Session ls
      → lex_next fuel ls ≡ returns code ls'
      → Session ls'
  restarted : {ls : LexState} (input : List ℕ) → Session ls → Session (lex_reset input ls)

abbrev Good : LexState → Type 0
Good ls = IsValid ls.indent ls × IsStack ls.indent

started-Good : (ch : ℕ) (input : List ℕ) → Good (lex_init ch input)
unfolding lex_init
started-Good ch input = ground arith

restarted-Good : (input : List ℕ) {ls : LexState} → Good ls → Good (lex_reset input ls)
unfolding lex_reset
restarted-Good input (v, o) = ground arith

pub Session-Good : {ls : LexState} → Session ls → Good ls
Session-Good (started ch input) = started-Good ch input
Session-Good (called {ls} fuel code s e) =
    let (v, o) = Session-Good s in
    let after = rw e at (lex_next-IsSafe fuel ls v o) in (after.0, after.1)
Session-Good (restarted input s) = restarted-Good input (Session-Good s)

-- In every state that `pylt_lex_init`, `pylt_lex_next` and `pylt_lex_reset` reach, in any order
-- and on any files: nothing is recorded or left to replay, each buffer lies within its size, the
-- indent stack falls strictly to a 0, and the next call does not read through a NULL indent.
pub Session-IsSafe :
    {ls : LexState} (fuel : ℕ)
    → Session ls
    → IsValid ls.indent ls × IsStack ls.indent × (lex_next fuel ls ≢ crashes)
Session-IsSafe {ls} fuel s =
    let (v, o) = Session-Good s in (v, o, λ e. rw e at (lex_next-IsSafe fuel ls v o))
