-- ===== src/Types/Digits.antt =====
-- Digits of number literals and of escapes: `_hex`, `_oct`, `_bin`, `_dec` and `_read_x_int` of
-- types/common/number.c, and the bounded `_read_x_int` of types/common/string.c.
use python_lite.Base.{
  ℕ, zero, suc, ◌+◌, ◌-◌, ◌*◌, ◌/◌, ◌^◌, Bool, ◌||◌, List, [], ◌∷◌, ◌==◌, within, if◌then◌else◌,
  length,
}

-- `255` is the mark of a byte that is no digit.
unfoldable pub hex : ℕ → ℕ
hex c =
    if within b'0' b'9' c
    then c - b'0'
    else if within b'A' b'F' c
    then c - b'A' + 10
    else if within b'a' b'f' c
    then c - b'a' + 10
    else 255

unfoldable pub oct : ℕ → ℕ
oct c = if within b'0' b'7' c then c - b'0' else 255

unfoldable pub bin : ℕ → ℕ
bin c = if within b'0' b'1' c then c - b'0' else 255

unfoldable pub dec : ℕ → ℕ
dec c = if within b'0' b'9' c then c - b'0' else 255

unfoldable pub is_hex : ℕ → Bool
is_hex c = within b'0' b'9' c || within b'A' b'F' c || within b'a' b'f' c

-- The `do … while (p != e)` of number.c: the weight `val` falls by a factor `n` at each digit.
unfoldable pub read_digits : ℕ → (ℕ → ℕ) → ℕ → ℕ → List ℕ → ℕ
read_digits n func ret val [] = ret
read_digits n func ret val (c ∷ cs) = read_digits n func (ret + func c * val) (val / n) cs

-- `_read_x_int` of number.c; `pow(n, e - p - 1)` is exact below 2 ^ 53.
unfoldable pub read_x_int : ℕ → (ℕ → ℕ) → List ℕ → ℕ
unfolding read_digits
read_x_int n func [] = 0
read_x_int n func (c ∷ cs) = read_digits n func 0 (n ^ length cs) (c ∷ cs)

-- The loop of string.c reads `left` digits at most. At a byte that is no digit it divides by the
-- weight of the digits not read, which is `pow(n, -max_size + num)`. It returns the number and
-- what it has not read.
unfoldable pub read_bounded : ℕ → (ℕ → ℕ) → ℕ → ℕ → ℕ → List ℕ → ℕ × List ℕ
read_bounded n func zero ret val cs = (ret, cs)
read_bounded n func (suc left) ret val [] = (ret, [])
read_bounded n func (suc left) ret val (c ∷ cs) =
    let more = read_bounded n func left (ret + func c * val) (val / n) cs in
    if func c == 255 then (ret / n ^ suc left, c ∷ cs) else more

-- `pylt_obj_int_new_from_cstr_full`; a base other than 0 to 3 leaves the value unset.
unfoldable pub int_from_cstr : ℕ → List ℕ → ℕ
unfolding hex oct bin dec read_x_int
int_from_cstr base_n cs =
    if base_n == 0
    then read_x_int 10 dec cs
    else if base_n == 1
    then read_x_int 16 hex cs
    else if base_n == 2
    then read_x_int 2 bin cs
    else read_x_int 8 oct cs
