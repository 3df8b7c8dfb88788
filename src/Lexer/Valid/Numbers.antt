-- ===== src/Lexer/Valid/Numbers.antt =====
-- The readers of number literals keep the lexer's invariant.
use python_lite.Base.{List, ℕ, Bool, not, ◌||◌, [], arith, ◌==◌, if_both}
use python_lite.Types.Digits.{is_hex}
use python_lite.Lexer.State.{LexState, nextc, bytes_next}
use python_lite.Lexer.Scan.{
  Code, read_run, is_dec, is_bin, is_oct, finish_int, read_dec_float, read_radix, read_number,
  read_zero,
}
use python_lite.Lexer.Valid.{IsValid, nextc-IsValid, bytes_next-IsValid, read_run-IsValid}

digits-IsValid :
    {st : List ℕ}
    → (test : ℕ → Bool) (ls : LexState) → IsValid st ls
    → IsValid st (read_run test bytes_next ls)
digits-IsValid test = read_run-IsValid test bytes_next (λ c ls v. bytes_next-IsValid c v)

finish_int-IsValid :
    {st : List ℕ} → (n : ℕ) {ls : LexState} → IsValid st ls → IsValid st (finish_int n ls)
finish_int-IsValid n v = ground arith

pub read_dec_float-IsValid :
    {st : List ℕ} → {ls : LexState} → IsValid st ls → IsValid st (read_dec_float ls)
unfolding read_dec_float
read_dec_float-IsValid {ls} v =
    let whole = digits-IsValid is_dec ls v in
    let all = digits-IsValid is_dec _ (nextc-IsValid (bytes_next-IsValid b'.' whole)) in
    if_both (IsValid _) ((read_run is_dec bytes_next ls).ch == b'.') (ground arith)
      (finish_int-IsValid 0 whole)

empty_bytes-IsValid :
    {st : List ℕ} → {ls : LexState} → IsValid st ls → IsValid st (record ls { bytes_buf = [] })
empty_bytes-IsValid v = ground arith

pub read_number-IsValid :
    {st : List ℕ} → {ls : LexState} → IsValid st ls → IsValid st (read_number ls)
unfolding read_number
read_number-IsValid {ls} v =
    read_dec_float-IsValid (nextc-IsValid (bytes_next-IsValid ls.ch (empty_bytes-IsValid v)))

abbrev pub SecondIsValid : List ℕ → Code × LexState → Type 0
SecondIsValid st r = IsValid st r.1

read_radix-IsValid :
    {st : List ℕ}
    → (n : ℕ) (test : ℕ → Bool) {ls : LexState} → IsValid st ls
    → SecondIsValid st (read_radix n test ls)
unfolding read_radix
read_radix-IsValid n test {ls} v =
    let s = nextc-IsValid v in
    if_both (SecondIsValid _) (not (test (nextc ls).ch)) s
      (finish_int-IsValid n (digits-IsValid test _ (empty_bytes-IsValid s)))

pub read_zero-IsValid :
    {st : List ℕ} → {ls : LexState} → IsValid st ls → SecondIsValid st (read_zero ls)
unfolding read_zero
read_zero-IsValid {ls} v =
    let s = nextc-IsValid (bytes_next-IsValid b'0' (empty_bytes-IsValid v)) in
    let c = (nextc (bytes_next b'0' (record ls { bytes_buf = [] }))).ch in
    if_both (SecondIsValid _) (c == b'x' || c == b'X') (read_radix-IsValid 1 is_hex s) (
      if_both (SecondIsValid _) (c == b'b' || c == b'B') (read_radix-IsValid 2 is_bin s) (
        if_both (SecondIsValid _) (c == b'o' || c == b'O') (read_radix-IsValid 3 is_oct s) (
          if_both (SecondIsValid _) (c == b'.') (read_dec_float-IsValid s) (
            if_both (SecondIsValid _) (is_dec c)
              (read_dec_float-IsValid (nextc-IsValid (bytes_next-IsValid c s)))
              (finish_int-IsValid 0 s)))))
