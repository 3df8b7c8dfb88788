-- ===== src/Lexer/Halts.antt =====
-- The loop of `pylt_lex_next` that looks for a token ends.
use python_lite.Base.{
  ℕ, zero, suc, ◌+◌, ◌≤◌, ◌<◌, ◌≡◌, true, false, List, arith, ◌==◌, if◌then◌else◌,
}
use python_lite.Lexer.State.{LexState, nextc, remaining}
use python_lite.Lexer.Scan.{comment_loop, ends_comment, skip_comment}
use python_lite.Lexer.Next.{Outcome, Scan, again, result, scan_step, scan_loop}
use python_lite.Lexer.Valid.{IsValid, nextc-IsValid}

-- The characters left, the present one included until the end is reached.
abbrev pub measure : LexState → ℕ
measure ls = (if ls.ch == 0 then 0 else 1) + remaining ls

pub measure-nextc : {st : List ℕ} {ls : LexState} → IsValid st ls → measure (nextc ls) ≤ measure ls
unfolding nextc
measure-nextc v = ground arith

pub measure-nextc-lt :
    {st : List ℕ} {ls : LexState}
    → IsValid st ls
    → (ls.ch == 0) ≡ false
    → measure (nextc ls) < measure ls
unfolding nextc
measure-nextc-lt v h = ground arith

comment_loop-measure :
    {st : List ℕ} (fuel : ℕ) (ls : LexState)
    → IsValid st ls
    → measure (comment_loop fuel ls) ≤ measure ls
unfolding comment_loop
comment_loop-measure zero ls v = omega arith
comment_loop-measure (suc fuel) ls v =
    elim (ends_comment (nextc ls).ch)
      as (λ b.
        measure (elim b [ true ↦ nextc ls | false ↦ comment_loop fuel (nextc ls) ]) ≤ measure ls) [
          | true ↦ measure-nextc v
          | false ↦
              omega (arith, comment_loop-measure fuel (nextc ls) (nextc-IsValid v), measure-nextc v)
        ]

pub skip_comment-measure :
    {st : List ℕ} (ls : LexState)
    → IsValid st ls
    → (ls.ch == 0) ≡ false
    → measure (skip_comment ls) < measure ls
unfolding skip_comment comment_loop
skip_comment-measure ls v h =
    let fuel = remaining ls in
    elim (ends_comment (nextc ls).ch)
      as (λ b.
        measure (elim b [ true ↦ nextc ls | false ↦ comment_loop fuel (nextc ls) ]) < measure ls) [
          | true ↦ measure-nextc-lt v h
          | false ↦
              omega (
                arith,
                comment_loop-measure fuel (nextc ls) (nextc-IsValid v),
                measure-nextc-lt v h,
              )
        ]

module _ (fuel : ℕ) where
  -- A round that goes on has read something.
  abbrev Shrinks : LexState → Scan → Type 0
  Shrinks ls (again ls') = measure ls' < measure ls
  Shrinks ls (result out) = Unit

  -- The loop ends by its own tests in at most so many rounds, with this outcome: each round but the
  -- last goes on, and the last does not.
  pub data EndsIn : ℕ → LexState → Outcome → Type 0 where
    stops :
        {n : ℕ} {ls : LexState} {out : Outcome}
        → scan_step fuel ls ≡ result out
        → EndsIn (suc n) ls out
    goes_on :
        {n : ℕ} {ls ls' : LexState} {out : Outcome}
        → scan_step fuel ls ≡ again ls'
        → EndsIn n ls' out
        → EndsIn (suc n) ls out

  abbrev turn : ℕ → Scan → Outcome
  turn n (again ls') = scan_loop fuel n ls'
  turn n (result out) = out
