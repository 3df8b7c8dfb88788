-- ===== src/Lexer/Rounds.antt =====
-- One round of each loop of the lexer, as equations that keep the loops shut elsewhere.
use python_lite.Base.{ℕ, suc, ◌≡◌, Bool, true, false}
use python_lite.Lexer.State.{LexState, nextc}
use python_lite.Lexer.Scan.{run_loop}
use python_lite.Lexer.Strings.{Kind, next, closed, body_step, done, body_loop}

module _ (fuel : ℕ) (test : ℕ → Bool) (put : ℕ → LexState → LexState) (ls : LexState) where
  pub run_loop-more :
      test ls.ch ≡ true
      → run_loop (suc fuel) test put ls ≡ run_loop fuel test put (nextc (put ls.ch ls))
  unfolding run_loop
  run_loop-more e = rw (e, run_loop)

  pub run_loop_end : test ls.ch ≡ false → run_loop (suc fuel) test put ls ≡ ls
  unfolding run_loop
  run_loop_end e = rw (e, run_loop)

module _ (fuel : ℕ) (k : Kind) (escape : Bool) (ls : LexState) where
  pub body_loop-next :
      {escape' : Bool} {ls' : LexState}
      → body_step k escape ls ≡ next escape' ls'
      → body_loop (suc fuel) k escape ls ≡ body_loop fuel k escape' ls'
  unfolding body_loop
  body_loop-next e = rw (e, body_loop)

  pub body_loop-closed :
      {ls' : LexState}
      → body_step k escape ls ≡ closed ls'
      → body_loop (suc fuel) k escape ls ≡ done ls'
  unfolding body_loop
  body_loop-closed e = rw (e, body_loop)
