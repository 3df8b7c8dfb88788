-- ===== src/Lexer/Valid.antt =====
-- The invariant of the lexer between two calls of `pylt_lex_next`, and the readers that keep it.
pub mod Numbers
pub mod Recording
pub mod Words
pub mod Strings
pub mod Layout
pub mod Calls
use python_lite.Base.{
  ℕ, zero, suc, ◌%◌, ◌==◌, ◌≤◌, ◌<◌, ◌≡◌, Bool, true, false, List, [], ◌∷◌, arith, length,
  length-append, if_both,
}
use python_lite.Lexer.State.{LexState, nextc, bytes_next, str_next, bs_next, remaining}
use python_lite.Lexer.Scan.{
  token, comment_loop, skip_comment, run_loop, read_run, get_token_1, get_token_2, read_minus,
  ends_comment,
}
use python_lite.Lexer.Token.{tk_de_minus_eq, tk_de_ret_type}

-- The indent values fall strictly from the top of the stack to a 0 at its bottom.
abbrev pub IsStack : List ℕ → Type 0
IsStack [] = ⊥
IsStack (v ∷ []) = v ≡ 0
IsStack (v ∷ w ∷ prev) = (w < v) × IsStack (w ∷ prev)

-- Nothing is recorded, the buffers hold what was written to them, and the stack is in order.
pub record IsValid (st : List ℕ) (ls : LexState) : Type 0 where
  pub stopped : ls.record_on ≡ false
  pub replayed : ls.record_buf ≡ []
  pub bytes_fit : length ls.bytes_buf ≤ ls.bytes_size
  pub str_fit : length ls.str_buf ≤ ls.str_size
  pub stack : ls.indent ≡ st

pub nextc-IsValid : {st : List ℕ} → {ls : LexState} → IsValid st ls → IsValid st (nextc ls)
unfolding nextc
nextc-IsValid v = ground arith

pub bytes_next-IsValid :
    {st : List ℕ} → (c : ℕ) {ls : LexState} → IsValid st ls → IsValid st (bytes_next c ls)
unfolding bytes_next
bytes_next-IsValid c {ls} v = ground (arith, length-append ls.bytes_buf ((c % 256) ∷ []))

pub str_next-IsValid :
    {st : List ℕ} → (c : ℕ) {ls : LexState} → IsValid st ls → IsValid st (str_next c ls)
unfolding str_next
str_next-IsValid c {ls} v = ground (arith, length-append ls.str_buf (c ∷ []))

pub bs_next-IsValid :
    {st : List ℕ} → (b : Bool) (c : ℕ) {ls : LexState} → IsValid st ls → IsValid st (bs_next b c ls)
unfolding bs_next
bs_next-IsValid b c v = if_both (IsValid _) b (str_next-IsValid c v) (bytes_next-IsValid c v)

comment_loop-IsValid :
    {st : List ℕ} → (fuel : ℕ) {ls : LexState} → IsValid st ls → IsValid st (comment_loop fuel ls)
unfolding comment_loop
comment_loop-IsValid zero v = v
comment_loop-IsValid {st} (suc fuel) {ls} v =
    let n = nextc-IsValid v in
    elim (ends_comment (nextc ls).ch)
      as (λ b. IsValid st (elim b [ true ↦ nextc ls | false ↦ comment_loop fuel (nextc ls) ])) [
        | true ↦ n
        | false ↦ comment_loop-IsValid fuel n
      ]

pub skip_comment-IsValid :
    {st : List ℕ} → {ls : LexState} → IsValid st ls → IsValid st (skip_comment ls)
unfolding skip_comment
skip_comment-IsValid {ls} v = comment_loop-IsValid (suc (remaining ls)) v

module _ {st : List ℕ} (test : ℕ → Bool) (put : ℕ → LexState → LexState)
    (keep : (c : ℕ) (ls : LexState) → IsValid st ls → IsValid st (put c ls)) where
  run_loop-IsValid :
      (fuel : ℕ) (ls : LexState) → IsValid st ls → IsValid st (run_loop fuel test put ls)
  unfolding run_loop
  run_loop-IsValid zero ls v = v
  run_loop-IsValid (suc fuel) ls v =
      let n = nextc-IsValid (keep ls.ch ls v) in
      elim (test ls.ch)
        as (λ b.
          IsValid st
            (elim b [ true ↦ run_loop fuel test put (nextc (put ls.ch ls)) | false ↦ ls ])) [
              | true ↦ run_loop-IsValid fuel (nextc (put ls.ch ls)) n
              | false ↦ v
            ]

  pub read_run-IsValid : (ls : LexState) → IsValid st ls → IsValid st (read_run test put ls)
  unfolding read_run
  read_run-IsValid ls v = run_loop-IsValid (suc (suc (remaining ls))) ls v

-- Fields that the invariant does not speak of.
pub token-IsValid :
    {st : List ℕ} → (t : ℕ) {ls : LexState} → IsValid st ls → IsValid st (token t ls)
token-IsValid t v = ground arith

pub get_token_1-IsValid :
    {st : List ℕ} → (a b c : ℕ) {ls : LexState} → IsValid st ls → IsValid st (get_token_1 a b c ls)
unfolding get_token_1
get_token_1-IsValid a b c {ls} v =
    let s1 = nextc-IsValid v in
    let s2 = nextc-IsValid s1 in
    if_both (IsValid _) ((nextc ls).ch == b'=') (token-IsValid a s2) (
      if_both (IsValid _) ((nextc ls).ch == ls.ch)
        (if_both (IsValid _) ((nextc (nextc ls)).ch == b'=') (token-IsValid c (nextc-IsValid s2))
          (token-IsValid b s2))
        (token-IsValid ls.ch s1))

pub get_token_2-IsValid :
    {st : List ℕ} → (a : ℕ) {ls : LexState} → IsValid st ls → IsValid st (get_token_2 a ls)
unfolding get_token_2
get_token_2-IsValid a {ls} v =
    let s1 = nextc-IsValid v in
    if_both (IsValid _) ((nextc ls).ch == b'=') (token-IsValid a (nextc-IsValid s1))
      (token-IsValid ls.ch s1)

pub read_minus-IsValid :
    {st : List ℕ} → {ls : LexState} → IsValid st ls → IsValid st (read_minus ls)
unfolding read_minus
read_minus-IsValid {ls} v =
    let s1 = nextc-IsValid v in
    if_both (IsValid _) ((nextc ls).ch == b'=') (token-IsValid tk_de_minus_eq (nextc-IsValid s1)) (
      if_both (IsValid _) ((nextc ls).ch == b'>') (token-IsValid tk_de_ret_type (nextc-IsValid s1))
        (token-IsValid b'-' s1))
