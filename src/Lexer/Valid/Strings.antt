-- ===== src/Lexer/Valid/Strings.antt =====
-- String literals and words: the prefix is read with recording on, and a word replays it.
use python_lite.Base.{
  ℕ, zero, suc, ◌≡◌, refl, Bool, true, false, not, ◌||◌, ◌&&◌, List, [], ◌∷◌, arith, ◌==◌, leb,
  if_both, if_cases, ==_iff, ◌∙◌, some, none, Option, inl, inr, ◌⊎◌,
}
use python_lite.Lexer.Token.{tk_string}
use python_lite.Lexer.State.{LexState, TokenObj, nextc, start_record, stop_record}
use python_lite.Lexer.Strings.{
  Body, next, closed, failed, Kind, plain, long_quote, new_line, skip_lf, body_step, Read, done,
  refused, runs, body_loop, open_body, empty_buffer, with_obj, new_obj, finish_body,
  read_str_or_bytes,
}
use python_lite.Lexer.Rounds.{body_loop-closed}
use python_lite.Lexer.Valid.{IsValid, nextc-IsValid, bs_next-IsValid}
use python_lite.Lexer.Valid.Recording.{
  IsRecording, start_record-IsRecording, nextc-IsRecording, IsQuote, halt-IsValid,
}

-- The body of a literal.
abbrev BodyIsValid : List ℕ → Body → Type 0
BodyIsValid st (next escape ls) = IsValid st ls
BodyIsValid st (closed ls) = IsValid st ls
BodyIsValid st (failed ls) = IsValid st ls

abbrev pub ReadIsValid : List ℕ → Read → Type 0
ReadIsValid st (done ls) = IsValid st ls
ReadIsValid st (refused ls) = IsValid st ls
ReadIsValid st runs = Unit

pub new_line-IsValid : {st : List ℕ} → {ls : LexState} → IsValid st ls → IsValid st (new_line ls)
new_line-IsValid v = ground arith

pub skip_lf-IsValid : {st : List ℕ} → {ls : LexState} → IsValid st ls → IsValid st (skip_lf ls)
skip_lf-IsValid {ls} v = if_both (IsValid _) (ls.ch == b'\n') (nextc-IsValid v) v

plain-IsValid :
    {st : List ℕ}
    → (k : Kind) (escape : Bool) {ls : LexState} → IsValid st ls
    → BodyIsValid st (plain k escape ls)
plain-IsValid k escape {ls} v =
    if_both (BodyIsValid _) (not k.is_str && leb 128 ls.ch) v
      (nextc-IsValid (bs_next-IsValid k.is_str ls.ch v))

long_quote-IsValid :
    {st : List ℕ} → (k : Kind) {ls : LexState} → IsValid st ls → BodyIsValid st (long_quote k ls)
long_quote-IsValid k {ls} v =
    let s1 = nextc-IsValid v in
    let s2 = nextc-IsValid s1 in
    if_both (BodyIsValid _) (not ((nextc ls).ch == k.sign)) (bs_next-IsValid k.is_str k.sign s1) (
      if_both (BodyIsValid _) (not ((nextc (nextc ls)).ch == k.sign))
        (bs_next-IsValid k.is_str k.sign (bs_next-IsValid k.is_str k.sign s2)) (nextc-IsValid s2))

body_step-IsValid :
    {st : List ℕ}
    → (k : Kind) (escape : Bool) {ls : LexState} → IsValid st ls
    → BodyIsValid st (body_step k escape ls)
unfolding body_step
body_step-IsValid k escape {ls} v =
    let n = new_line-IsValid v in
    if_both (BodyIsValid _) (ls.ch == b'\'' || ls.ch == b'"')
      (if_both (BodyIsValid _) escape (plain-IsValid k false v) (
        if_both (BodyIsValid _) (ls.ch == k.sign)
          (if_both (BodyIsValid _) k.long (long_quote-IsValid k v) (nextc-IsValid v))
          (plain-IsValid k false v)))
      (if_both (BodyIsValid _) (ls.ch == b'\n')
        (if_both (BodyIsValid _) (not k.long) n (nextc-IsValid (bs_next-IsValid k.is_str ls.ch n)))
        (if_both (BodyIsValid _) (ls.ch == b'\r')
          (if_both (BodyIsValid _) (not k.long) n
            (skip_lf-IsValid (nextc-IsValid (bs_next-IsValid k.is_str b'\n' n))))
          (if_both (BodyIsValid _) (ls.ch == b'\\') (plain-IsValid k true v)
            (plain-IsValid k false v))))

body_loop-IsValid :
    {st : List ℕ}
    → (fuel : ℕ) (k : Kind) (escape : Bool) {ls : LexState} → IsValid st ls
    → ReadIsValid st (body_loop fuel k escape ls)
unfolding body_loop
body_loop-IsValid zero k escape v = tt
body_loop-IsValid {st} (suc fuel) k escape {ls} v =
    (elim (body_step k escape ls)
        as (λ s.
          BodyIsValid st s
          → ReadIsValid st (elim s [
            | next escape' ls' ↦ body_loop fuel k escape' ls'
            | closed ls' ↦ done ls'
            | failed ls' ↦ refused ls'
          ])) [
            | next escape' ls' ↦ λ w. body_loop-IsValid fuel k escape' w
            | closed ls' ↦ λ w. w
            | failed ls' ↦ λ w. w
          ])
      (body_step-IsValid k escape v)

stop_first-IsValid :
    {st : List ℕ} → {ls : LexState} → IsRecording st [] ls → IsValid st (stop_record ls)
unfolding stop_record nextc
stop_first-IsValid r = ground arith

-- After one quote that is not followed by a second, that one is read again.
stop_second :
    {st : List ℕ}
    → (q : ℕ) {ls : LexState} → IsRecording st (q ∷ []) ls
    → ((stop_record ls).ch ≡ q) × IsValid st (nextc (stop_record ls))
unfolding stop_record nextc
stop_second q r = ground arith

empty_buffer-IsValid :
    {st : List ℕ}
    → (is_str : Bool) (ls : LexState) → IsValid st ls
    → IsValid st (empty_buffer is_str ls)
empty_buffer-IsValid is_str ls v = ground arith

ch-empty_buffer : (is_str : Bool) (ls : LexState) → (empty_buffer is_str ls).ch ≡ ls.ch
ch-empty_buffer is_str ls = ground arith

empty_after :
    {st : List ℕ}
    → (is_str : Bool) (ls : LexState) → IsValid st (nextc ls)
    → IsValid st (nextc (empty_buffer is_str ls))
unfolding nextc
empty_after is_str ls v = ground arith

-- The body begins in a valid state, or at the closing quote of an empty literal.
abbrev Opened : List ℕ → ℕ → Bool × LexState → Type 0
Opened st sign r = IsValid st r.1 ⊎ (r.0 ≡ false) × (r.1.ch ≡ sign) × IsValid st (nextc r.1)

open_body-Opened : {st : List ℕ} → {ls : LexState} → IsValid st ls → Opened st ls.ch (open_body ls)
unfolding open_body
open_body-Opened {ls} v =
    let r1 = start_record-IsRecording (nextc-IsValid v) in
    let r2 = nextc-IsRecording r1 in
    let s1 = start_record (nextc ls) in
    if_cases ((Opened _) ls.ch) (s1.ch == ls.ch)
      (λ e.
        if_cases ((Opened _) ls.ch) ((nextc s1).ch == ls.ch)
          (λ _. inl (halt-IsValid _ (nextc-IsRecording r2)))
          (λ _.
            let back = stop_second s1.ch r2 in
            inr (refl, back.0 ∙ (==_iff s1.ch ls.ch).0 e, back.1)))
      (λ _. inl (stop_first-IsValid r1))

body_step-close :
    (k : Kind) (ls : LexState)
    → IsQuote k.sign
    → k.long ≡ false
    → ls.ch ≡ k.sign
    → body_step k false ls ≡ closed (nextc ls)
unfolding body_step
body_step-close k ls q l e = ground arith

body_loop-Opened :
    {st : List ℕ}
    → (fuel : ℕ) (k : Kind) (ls : LexState) → IsQuote k.sign
    → Opened st k.sign (k.long, ls)
    → ReadIsValid st (body_loop fuel k false ls)
body_loop-Opened fuel k ls q (inl v) = body_loop-IsValid fuel k false v
body_loop-Opened zero k ls q (inr o) = unfold body_loop in tt
body_loop-Opened (suc fuel) k ls q (inr (l, e, v)) =
    rw (body_loop-closed fuel k false ls (body_step-close k ls q l e)) v

with_obj-IsValid :
    {st : List ℕ}
    → (o : Option TokenObj) (ls : LexState) → IsValid st ls
    → ReadIsValid st (with_obj o ls)
with_obj-IsValid none ls v = ground arith
with_obj-IsValid (some obj) ls v = ground arith

finish_body-IsValid :
    (st : List ℕ)
    → (is_str is_raw : Bool) (r : Read) → ReadIsValid st r
    → ReadIsValid st (finish_body is_str is_raw r)
unfolding finish_body
finish_body-IsValid st is_str is_raw (done ls) v = with_obj-IsValid (new_obj is_str is_raw ls) ls v
finish_body-IsValid st is_str is_raw (refused ls) v = v
finish_body-IsValid st is_str is_raw runs v = tt

empty_buffer-Opened :
    {st : List ℕ}
    → (is_str : Bool) (sign : ℕ) (long : Bool) (ls : LexState) → Opened st sign (long, ls)
    → Opened st sign (long, empty_buffer is_str ls)
empty_buffer-Opened is_str sign long ls (inl v) = inl (empty_buffer-IsValid is_str ls v)
empty_buffer-Opened is_str sign long ls (inr (l, e, v)) =
    inr (l, rw (ch-empty_buffer is_str ls) e, empty_after is_str ls v)

pub read_str_or_bytes-IsValid :
    {st : List ℕ}
    → (fuel : ℕ) (is_raw : Bool) {ls : LexState} → IsValid st ls
    → IsQuote ls.ch
    → ReadIsValid st (read_str_or_bytes fuel is_raw ls)
unfolding read_str_or_bytes
read_str_or_bytes-IsValid fuel is_raw {ls} v q =
    let is_str = ls.token_val == tk_string in
    let opened = open_body ls in
    finish_body-IsValid _ is_str is_raw _ (
      body_loop-Opened fuel (record { is_str = is_str; long = opened.0; sign = ls.ch })
        (empty_buffer is_str opened.1) q
        (empty_buffer-Opened is_str ls.ch opened.0 opened.1 (open_body-Opened v)))
