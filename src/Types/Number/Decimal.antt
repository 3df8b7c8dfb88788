-- ===== src/Types/Number/Decimal.antt =====
-- The decimal digits of a number and their value.
use native.Mathlib.Nat.{pow-suc, mul_assoc, mul-div_cancel}
use python_lite.Base.{
  ℕ, zero, suc, ◌+◌, ◌*◌, ◌/◌, ◌%◌, ◌^◌, ◌≤◌, ◌<◌, ◌≡◌, refl, sym, ap, ◌∙◌, List, [], ◌∷◌, ◌++◌,
  arith, ◌==◌, if◌then◌else◌, length, length-append, if_cases,
}
use python_lite.Types.Digits.{dec, read_digits, read_x_int}

-- The value of decimal digits.
pub value : List ℕ → ℕ
value [] = 0
value (c ∷ cs) = dec c * 10 ^ length cs + value cs

read_digits-value :
    (ret : ℕ) (cs : List ℕ) (c : ℕ)
    → read_digits 10 dec ret (10 ^ length cs) (c ∷ cs) ≡ ret + value (c ∷ cs)
unfolding read_digits value
read_digits-value ret [] c = omega arith
read_digits-value ret (d ∷ cs) c =
    let lower : 10 ^ suc (length cs) / 10 ≡ 10 ^ length cs =
      ap (λ p. p / 10) (pow-suc 10 (length cs)) ∙ mul-div_cancel (10 ^ length cs) (omega arith) in
    ap (λ w. read_digits 10 dec (ret + dec c * 10 ^ suc (length cs)) w (d ∷ cs)) lower
    ∙ read_digits-value (ret + dec c * 10 ^ suc (length cs)) cs d
    ∙ omega arith

pub read_x_int-value : (cs : List ℕ) → read_x_int 10 dec cs ≡ value cs
unfolding read_x_int value
read_x_int-value [] = refl
read_x_int-value (c ∷ cs) = read_digits-value 0 cs c ∙ omega arith

value-snoc : (cs : List ℕ) (c : ℕ) → value (cs ++ c ∷ []) ≡ value cs * 10 + dec c
unfolding value
value-snoc [] c = omega arith
value-snoc (d ∷ cs) c =
    let n = length-append cs (c ∷ []) in
    let power : 10 ^ length (cs ++ c ∷ []) ≡ 10 ^ length cs * 10 =
      ap (10 ^◌) {y = suc (length cs)} (omega arith) ∙ pow-suc 10 (length cs) in
    let scaled : dec d * 10 ^ length (cs ++ c ∷ []) ≡ dec d * 10 ^ length cs * 10 =
      ap (dec d *◌) power ∙ sym (mul_assoc (dec d) (10 ^ length cs) 10) in
    omega (arith, scaled, value-snoc cs c)

-- The decimal digits of a number, from fuel no less than it.
unfoldable pub digits : ℕ → ℕ → List ℕ
digits zero val = []
digits (suc fuel) val =
    let more = digits fuel (val / 10) in if val == 0 then [] else more ++ (b'0' + val % 10) ∷ []

dec_digit : (d : ℕ) → d < 10 → dec (b'0' + d) ≡ d
unfolding dec
dec_digit d h = ground arith

pub value-digits : (fuel val : ℕ) → val ≤ fuel → value (digits fuel val) ≡ val
unfolding digits value
value-digits zero val h = omega arith
value-digits (suc fuel) val h =
    let more = digits fuel (val / 10) in
    if_cases (λ cs. value cs ≡ val) (val == 0) (λ e. let z : val ≡ 0 = ground arith in omega arith)
      (λ e.
        let z : 0 < val = ground arith in
        value-snoc more (b'0' + val % 10)
        ∙ omega
            (arith, value-digits fuel (val / 10) (omega arith), dec_digit (val % 10) (omega arith)))
