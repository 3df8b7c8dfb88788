-- ===== src/Lexer/Valid/Words.antt =====
-- The invariant while a word is read whose first letters were recorded.
use python_lite.Base.{
  ℕ, zero, suc, ◌<◌, ◌≡◌, refl, false, List, [], ◌∷◌, length, arith, Option, Bool-cases, inl, inr,
  length-append,
}
use python_lite.Lexer.State.{LexState, TokenObj, nextc, str_next, remaining}
use python_lite.Lexer.Scan.{read_run, run_loop}
use python_lite.Lexer.Rounds.{run_loop-more, run_loop_end}
use python_lite.Lexer.Next.{is_ident_letter, read_word}
use python_lite.Lexer.Valid.{IsValid, str_next-IsValid, run_loop-IsValid}
use python_lite.Lexer.Valid.Recording.{IsDraining}

-- The loop over a word replays what is left before it reads on.
nextc-drained :
    {st : List ℕ}
    → (c : ℕ) (ls : LexState) → IsDraining st ls
    → IsDraining st (nextc (str_next c ls))
unfolding nextc str_next
nextc-drained c ls d = ground (arith, length-append ls.str_buf (c ∷ []))

record_buf-nextc :
    (c : ℕ) (ls : LexState) (d : ℕ) (buf : List ℕ)
    → ls.record_on ≡ false
    → ls.record_buf ≡ d ∷ buf
    → (nextc (str_next c ls)).record_buf ≡ buf
unfolding nextc str_next
record_buf-nextc c ls d buf off e = ground arith

drained : {st : List ℕ} → (ls : LexState) → IsDraining st ls → ls.record_buf ≡ [] → IsValid st ls
drained ls d e = ground arith

-- At a character that ends the word nothing is left to replay.
drained_at_end :
    {st : List ℕ}
    → (ls : LexState) → IsDraining st ls
    → is_ident_letter ls.ch ≡ false
    → IsValid st ls
drained_at_end ls d h = ground arith

str_next_keeps :
    {st : List ℕ} → (c : ℕ) (ls : LexState) → IsValid st ls → IsValid st (str_next c ls)
str_next_keeps c ls v = str_next-IsValid c v

word_loop-IsValid :
    {st : List ℕ}
    → (fuel : ℕ) (ls : LexState) (buf : List ℕ) → ls.record_buf ≡ buf
    → length buf < fuel
    → IsDraining st ls
    → IsValid st (run_loop fuel is_ident_letter str_next ls)
word_loop-IsValid fuel ls [] e h d =
    run_loop-IsValid is_ident_letter str_next str_next_keeps fuel ls (drained ls d e)
word_loop-IsValid zero ls (c ∷ buf) e h d = elim h [ ]
word_loop-IsValid (suc fuel) ls (c ∷ buf) e h d = elim (Bool-cases (is_ident_letter ls.ch)) [
  | inl more ↦ rw (run_loop-more fuel is_ident_letter str_next ls more) (
      word_loop-IsValid fuel (nextc (str_next ls.ch ls)) buf
        (record_buf-nextc ls.ch ls c buf d.stopped e) (omega arith) (nextc-drained ls.ch ls d))
  | inr end ↦ rw (run_loop_end fuel is_ident_letter str_next ls end) (drained_at_end ls d end)
]

empty_str-IsDraining :
    {st : List ℕ} → {ls : LexState} → IsDraining st ls → IsDraining st (record ls { str_buf = [] })
empty_str-IsDraining d = ground arith

with_word-IsValid :
    {st : List ℕ}
    → (t : ℕ) (o : Option TokenObj) {ls : LexState} → IsValid st ls
    → IsValid st (record ls { token_val = t; token_obj = o })
with_word-IsValid t o v = ground arith

pub read_word-IsValid :
    {st : List ℕ} → (ls : LexState) → IsDraining st ls → IsValid st (read_word ls)
unfolding read_word read_run
read_word-IsValid ls d =
    let first = nextc (str_next ls.ch (record ls { str_buf = [] })) in
    with_word-IsValid _ _ (
      word_loop-IsValid (suc (suc (remaining first))) first first.record_buf refl (omega arith)
        (nextc-drained ls.ch _ (empty_str-IsDraining d)))
