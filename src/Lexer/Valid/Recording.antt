-- ===== src/Lexer/Valid/Recording.antt =====
-- The invariant while characters are recorded: `read_str_or_bytes_head`.
use python_lite.Base.{
  ℕ, zero, suc, ◌≤◌, ◌≡◌, refl, true, false, ◌||◌, List, [], ◌∷◌, ◌++◌, length, arith, ◌==◌,
  if◌then◌else◌,
}
use python_lite.Lexer.Token.{tk_string, tk_bytes}
use python_lite.Lexer.State.{LexState, nextc, start_record, stop_record, halt_record}
use python_lite.Lexer.Scan.{token}
use python_lite.Lexer.Strings.{
  Prefix, Head, starts, not_str, letter, quote, other, head_step, head_loop, read_head,
}
use python_lite.Lexer.Next.{is_ident_letter}
use python_lite.Lexer.Valid.{token-IsValid, IsValid}

-- The characters to be replayed: each but the last is a letter of the word that `c` begins.
abbrev pub Drains : ℕ → List ℕ → Type 0
Drains c [] = Unit
Drains c (d ∷ buf) = (is_ident_letter c ≡ true) × Drains d buf

pub record IsDraining (st : List ℕ) (ls : LexState) : Type 0 where
  pub stopped : ls.record_on ≡ false
  pub drains : Drains ls.ch ls.record_buf
  pub bytes_fit : length ls.bytes_buf ≤ ls.bytes_size
  pub str_fit : length ls.str_buf ≤ ls.str_size
  pub stack : ls.indent ≡ st

-- `pre` has been recorded before the present character.
pub record IsRecording (st pre : List ℕ) (ls : LexState) : Type 0 where
  pub on : ls.record_on ≡ true
  pub recorded : ls.record_buf ≡ pre ++ ls.ch ∷ []
  pub bytes_fit : length ls.bytes_buf ≤ ls.bytes_size
  pub str_fit : length ls.str_buf ≤ ls.str_size
  pub stack : ls.indent ≡ st

pub start_record-IsRecording :
    {st : List ℕ} → {ls : LexState} → IsValid st ls → IsRecording st [] (start_record ls)
unfolding start_record
start_record-IsRecording v = ground arith

pub nextc-IsRecording :
    {st : List ℕ}
    → {pre : List ℕ} {ls : LexState} → IsRecording st pre ls
    → IsRecording st (pre ++ ls.ch ∷ []) (nextc ls)
unfolding nextc
nextc-IsRecording r = ground arith

abbrev All : (ℕ → Type 0) → List ℕ → Type 0
All P [] = Unit
All P (c ∷ cs) = P c × All P cs

abbrev IsLetter : ℕ → Type 0
IsLetter c = is_ident_letter c ≡ true

All-concat : (pre : List ℕ) (c : ℕ) → All IsLetter pre → IsLetter c → All IsLetter (pre ++ c ∷ [])
All-concat [] c a h = (h, tt)
All-concat (p ∷ pre) c a h = (a.0, All-concat pre c a.1 h)

All-Drains :
    (p : ℕ) (pre : List ℕ) (c : ℕ) → IsLetter p → All IsLetter pre → Drains p (pre ++ c ∷ [])
All-Drains p [] c h a = (h, tt)
All-Drains p (q ∷ pre) c h a = (h, All-Drains q pre c a.0 a.1)

stop_record-IsDraining :
    {st : List ℕ}
    → (pre : List ℕ) {ls : LexState} → IsRecording st pre ls
    → All IsLetter pre
    → IsDraining st (stop_record ls)
unfolding stop_record nextc
stop_record-IsDraining [] r a = ground arith
stop_record-IsDraining (p ∷ pre) {ls} r a = ground (arith, All-Drains p pre ls.ch a.0 a.1)

-- A letter of a prefix is a letter of a word.
head_step-IsLetter : (p q : Prefix) (c : ℕ) → head_step p c ≡ letter q → IsLetter c
unfolding head_step is_ident_letter
head_step-IsLetter p q c h = ground arith

abbrev pub IsQuote : ℕ → Type 0
IsQuote c = (c == b'\'' || c == b'"') ≡ true

head_step-IsQuote : (p : Prefix) (c : ℕ) → head_step p c ≡ quote → IsQuote c
unfolding head_step
head_step-IsQuote p c h = ground arith

-- Behind a quote the recording is still on; otherwise what was read is replayed.
abbrev pub HeadIsValid : List ℕ → Head → Type 0
HeadIsValid st (starts t is_raw ls) = IsValid st (token t (halt_record ls)) × IsQuote ls.ch
HeadIsValid st (not_str ls) = IsDraining st ls

pub halt-IsValid :
    {st : List ℕ}
    → (pre : List ℕ) {ls : LexState} → IsRecording st pre ls
    → IsValid st (halt_record ls)
unfolding halt_record
halt-IsValid pre r = ground arith

halt_record-IsValid :
    {st : List ℕ}
    → (t : ℕ) (pre : List ℕ) {ls : LexState} → IsRecording st pre ls
    → IsValid st (token t (halt_record ls))
halt_record-IsValid t pre r = token-IsValid t (halt-IsValid pre r)

head_loop-IsValid :
    {st : List ℕ}
    → (fuel : ℕ) (p : Prefix) (pre : List ℕ) (ls : LexState) → IsRecording st pre ls
    → All IsLetter pre
    → HeadIsValid st (head_loop fuel p ls)
unfolding head_loop
head_loop-IsValid zero p pre ls r a = stop_record-IsDraining pre r a
head_loop-IsValid {st} (suc fuel) p pre ls r a =
    (elim (head_step p ls.ch)
        as (λ s.
          head_step p ls.ch ≡ s
          → HeadIsValid st (elim s [
            | letter q ↦ head_loop fuel q (nextc ls)
            | quote ↦ starts (if p.b then tk_bytes else tk_string) p.r ls
            | other ↦ not_str (stop_record ls)
          ])) [
            | letter q ↦ λ e.
                head_loop-IsValid fuel q (pre ++ ls.ch ∷ []) (nextc ls) (nextc-IsRecording r)
                  (All-concat pre ls.ch a (head_step-IsLetter p q ls.ch e))
            | quote ↦ λ e. (
              halt_record-IsValid (if p.b then tk_bytes else tk_string) pre r,
              head_step-IsQuote p ls.ch e,
            )
            | other ↦ λ e. stop_record-IsDraining pre r a
          ])
      refl

pub read_head-IsValid :
    {st : List ℕ} → {ls : LexState} → IsValid st ls → HeadIsValid st (read_head ls)
unfolding read_head
read_head-IsValid {ls} v =
    head_loop-IsValid 4 (record { r = false; u = false; b = false }) [] (start_record ls)
      (start_record-IsRecording v) tt
