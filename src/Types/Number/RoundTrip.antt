-- ===== src/Types/Number/RoundTrip.antt =====
-- types/common/number.c: an integer written by `pylt_obj_int_to_ucs4` and read back by
-- `pylt_obj_int_new_from_cstr_full`.
use mathlib.Core.List.{append_assoc, append-nil}
use python_lite.Base.{
  ℕ, zero, suc, ◌+◌, ◌-◌, ◌/◌, ◌%◌, ◌^◌, ◌≤◌, ◌<◌, ◌≡◌, refl, sym, ap, ◌∙◌, List, [], ◌∷◌, ◌++◌,
  map, Bool, true, false, Option, none, some, arith, ◌==◌, if◌then◌else◌, length, length-append,
}
use python_lite.Base.Int.{ℤ, pos, negsuc, ltb_ℤ}
use python_lite.Types.Digits.{dec, read_digits, read_x_int, int_from_cstr}
use python_lite.Types.Slots.{replicate, store, length-replicate}
use python_lite.Types.ListObject.Represents.{append_items}
use python_lite.Types.Number.{
  abs_int, digits_len, put, fill, write_in, int_len, write_int, int_to_ucs4,
}
use python_lite.Types.Number.Decimal.{read_x_int-value, digits, value-digits}

-- A write at a place behind `front`.
put-front :
    (front : List (Option ℕ)) (s : Option ℕ) (rest : List (Option ℕ)) (n c : ℕ)
    → n ≡ suc (length front)
    → put (front ++ s ∷ rest) n c ≡ some (front ++ some c ∷ rest)
unfolding store
put-front front s rest zero c e = absurd (omega arith)
put-front [] s rest (suc zero) c e = refl
put-front [] s rest (suc (suc n)) c e = absurd (omega arith)
put-front (f ∷ front) s rest (suc zero) c e = absurd (omega arith)
put-front (f ∷ front) s rest (suc (suc n)) c e = rw (put-front front s rest (suc n) c (omega arith))

replicate-snoc : (n : ℕ) (o : Option ℕ) → replicate (suc n) o ≡ replicate n o ++ o ∷ []
replicate-snoc zero o = refl
replicate-snoc (suc n) o = ap (o ∷◌) (replicate-snoc n o)

-- Places that nothing was written to.
abbrev blanks : ℕ → List (Option ℕ)
blanks n = replicate n none

length-blanks : (n : ℕ) → length (blanks n) ≡ n
length-blanks n = length-replicate n none

front-last :
    (front : List (Option ℕ)) (k : ℕ) (filled : List (Option ℕ))
    → front ++ (blanks (suc k) ++ filled) ≡ (front ++ blanks k) ++ none ∷ filled
front-last front k filled =
    ap (λ b. front ++ (b ++ filled)) (replicate-snoc k none)
    ∙ ap (front ++◌) (append_assoc (blanks k) (none ∷ []) filled)
    ∙ sym (append_assoc front (blanks k) (none ∷ filled))

-- The blank places behind `front` are filled with the digits, before what is filled already.
fill-digits :
    (fuel val : ℕ) (front filled : List (Option ℕ)) (n : ℕ)
    → val ≤ fuel
    → n ≡ length front + digits_len fuel val
    → fill fuel val n (front ++ (replicate (digits_len fuel val) none ++ filled))
      ≡ some (front ++ (map some (digits fuel val) ++ filled))
unfolding fill digits digits_len
fill-digits zero val front filled n h e = refl
fill-digits (suc fuel) val front filled n h e =
    let c = b'0' + val % 10 in
    let k = digits_len fuel (val / 10) in
    let ds = digits fuel (val / 10) in
    let go : Option (List (Option ℕ)) → Option (List (Option ℕ)) =
      λ o. elim o [ none ↦ none | some chars ↦ fill fuel (val / 10) (n - 1) chars ] in
    elim (val == 0)
        as (λ b.
          ((b ≡ true → val ≡ 0) × (b ≡ false → 0 < val))
          → n ≡ length front + (if b then 0 else suc k)
          → (if b
              then some (front ++ (replicate (if b then 0 else suc k) none ++ filled))
              else go (put (front ++ (replicate (if b then 0 else suc k) none ++ filled)) n c))
            ≡ some (front ++ (map some (if b then [] else ds ++ c ∷ []) ++ filled))) [
              | true ↦ λ z m. refl
              | false ↦ λ z m.
                  let positive = z.1 refl in
                  let last = front-last front k filled in
                  let written =
                    put-front (front ++ replicate k none) none filled n c
                      (omega (arith, length-append front (blanks k), length-blanks k)) in
                  ap (λ chars. go (put chars n c)) last
                  ∙ ap go
                      (written ∙ ap some (append_assoc front (replicate k none) (some c ∷ filled)))
                  ∙ fill-digits fuel (val / 10) front (some c ∷ filled) (n - 1) (omega arith)
                      (omega arith)
                  ∙ ap (λ chars. some (front ++ chars)) (append_items ds (c ∷ []) filled)
            ]
      (λ t. ground arith, λ t. ground arith) e

-- The sign of a number, as text, and its distance from 0.
abbrev pub sign_text : Bool → List ℕ
sign_text true = b'-' ∷ []
sign_text false = []

write_positive :
    (is_neg : Bool) (val : ℕ)
    → 0 < val
    → write_int is_neg val ≡ some (map some (sign_text is_neg ++ digits val val))
unfolding write_int store
write_positive true val h =
    let k = digits_len val val in
    let nonzero : (val == 0) ≡ false = ground arith in
    ap (λ z. write_in true z val (int_len true z val)) nonzero
    ∙ ap (write_in true false val) {y = suc k} (omega arith)
    ∙ ap (λ b. fill val val (suc k) (some b'-' ∷ b)) (sym (append-nil (blanks k)))
    ∙ fill-digits val val (some b'-' ∷ []) [] (suc k) (omega arith) (omega arith)
    ∙ ap (λ d. some (some b'-' ∷ d)) (append-nil (map some (digits val val)))
write_positive false val h =
    let k = digits_len val val in
    let nonzero : (val == 0) ≡ false = ground arith in
    ap (λ z. write_in false z val (int_len false z val)) nonzero
    ∙ ap (write_in false false val) {y = k} (omega arith)
    ∙ ap (fill val val k) (sym (append-nil (blanks k)))
    ∙ fill-digits val val [] [] k (omega arith) (omega arith)
    ∙ ap some (append-nil (map some (digits val val)))

abs_int_pos : (n : ℕ) → n < 2 ^ 31 → abs_int (pos n) ≡ n
unfolding abs_int
abs_int_pos n h = ground arith

abs_int_neg : (n : ℕ) → suc n < 2 ^ 31 → abs_int (negsuc n) ≡ suc n
unfolding abs_int
abs_int_neg n h = ground arith

from_digits : (val : ℕ) → int_from_cstr 0 (digits val val) ≡ val
unfolding int_from_cstr
from_digits val = read_x_int-value (digits val val) ∙ value-digits val val (omega arith)

abbrev pub is_negative : ℤ → Bool
is_negative (pos n) = false
is_negative (negsuc n) = true

abbrev pub distance : ℤ → ℕ
distance (pos n) = n
distance (negsuc n) = suc n

zero_text : int_to_ucs4 (pos 0) ≡ some (some b'0' ∷ [])
unfolding int_to_ucs4 write_int abs_int fill store
zero_text = refl

zero_value : int_from_cstr 0 (b'0' ∷ []) ≡ 0
unfolding int_from_cstr read_x_int read_digits dec
zero_value = refl

-- The text of an integer less than 2 ^ 31 away from 0: the whole array is written and no place
-- outside it, and the text is a '-' if the integer is negative and then digits, from which the
-- integer's distance from 0 is read back.
pub int_from_cstr-int_to_ucs4 :
    (z : ℤ)
    → distance z < 2 ^ 31
    → (cs : List ℕ) × (int_to_ucs4 z ≡ some (map some (sign_text (is_negative z) ++ cs)))
      × (int_from_cstr 0 cs ≡ distance z)
unfolding int_to_ucs4
int_from_cstr-int_to_ucs4 (pos zero) h = (b'0' ∷ [], zero_text, zero_value)
int_from_cstr-int_to_ucs4 (pos (suc n)) h =
    let sign : ltb_ℤ (pos (suc n)) (pos 0) ≡ false = ground arith in
    (
      digits (suc n) (suc n),
      ap (λ s. write_int s (abs_int (pos (suc n)))) sign
          ∙ ap (write_int false) (abs_int_pos (suc n) h)
          ∙ write_positive false (suc n) (omega arith),
      from_digits (suc n),
    )
int_from_cstr-int_to_ucs4 (negsuc n) h =
    let sign : ltb_ℤ (negsuc n) (pos 0) ≡ true = ground arith in
    (
      digits (suc n) (suc n),
      ap (λ s. write_int s (abs_int (negsuc n))) sign
          ∙ ap (write_int true) (abs_int_neg n h)
          ∙ write_positive true (suc n) (omega arith),
      from_digits (suc n),
    )
