-- ===== src/Types/Number.antt =====
-- types/common/number.c: an integer as text, `pylt_obj_int_to_ucs4`.
pub mod Decimal
pub mod RoundTrip
use python_lite.Base.{
  ℕ, zero, suc, ◌+◌, ◌-◌, ◌/◌, ◌%◌, ◌^◌, Bool, true, false, List, [], ◌∷◌, Option, none, some, ltb,
  ◌==◌, if◌then◌else◌,
}
use python_lite.Base.Int.{ℤ, pos, negsuc, ltb_ℤ}
use python_lite.Types.Slots.{replicate, store}

-- `abs`, which takes an `int`: the low 32 bits of the value. C leaves the least one undefined.
unfoldable pub abs_int : ℤ → ℕ
abs_int z = let bits = low z in if ltb bits (2 ^ 31) then bits else 2 ^ 32 - bits
  where
    low : ℤ → ℕ
    low (pos n) = n % 2 ^ 32
    low (negsuc n) = 2 ^ 32 - 1 - n % 2 ^ 32

-- `while (val > 0) { len++; val /= 10; }`
unfoldable pub digits_len : ℕ → ℕ → ℕ
digits_len zero val = 0
digits_len (suc fuel) val =
    let more = digits_len fuel (val / 10) in if val == 0 then 0 else suc more

-- `str_data[pos] = …` where `next` is `pos + 1`.
abbrev pub put : List (Option ℕ) → ℕ → ℕ → Option (List (Option ℕ))
put chars zero c = none
put chars (suc at) c = store chars at (some c)

-- `while (val > 0) { str_data[pos--] = '0' + (val % 10); val /= 10; }`
unfoldable pub fill : ℕ → ℕ → ℕ → List (Option ℕ) → Option (List (Option ℕ))
fill zero val next chars = some chars
fill (suc fuel) val next chars =
    if val == 0 then some chars else elim (put chars next (b'0' + val % 10)) [
      | none ↦ none
      | some filled ↦ fill fuel (val / 10) (next - 1) filled
    ]

-- `if (is_neg) str_data[0] = '-'; if (val == 0) str_data[0] = '0';`
abbrev pub first_char : Bool → Bool → List (Option ℕ) → Option (List (Option ℕ))
first_char is_neg is_zero chars =
    let signed = if is_neg then store chars 0 (some b'-') else some chars in
    if is_zero then elim signed [ none ↦ none | some d ↦ store d 0 (some b'0') ] else signed

-- The array of `len` places with the first character, and the loop over it. Each round divides
-- the value by 10, so the value bounds the rounds.
abbrev pub write_in : Bool → Bool → ℕ → ℕ → Option (List (Option ℕ))
write_in is_neg is_zero val len = elim (first_char is_neg is_zero (replicate len none)) [
  | none ↦ none
  | some chars ↦ fill val val len chars
]

abbrev pub int_len : Bool → Bool → ℕ → ℕ
int_len is_neg is_zero val = if is_zero then 1 else (if is_neg then 1 else 0) + digits_len val val

-- The body behind `is_neg` and `val`.
unfoldable pub write_int : Bool → ℕ → Option (List (Option ℕ))
unfolding digits_len fill
write_int is_neg val = write_in is_neg (val == 0) val (int_len is_neg (val == 0) val)

-- `pylt_obj_int_to_ucs4`
unfoldable pub int_to_ucs4 : ℤ → Option (List (Option ℕ))
unfolding write_int abs_int
int_to_ucs4 z = write_int (ltb_ℤ z (pos 0)) (abs_int z)
