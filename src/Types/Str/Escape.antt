-- ===== src/Types/Str/Escape.antt =====
-- The escapes of `pylt_obj_str_new` and `pylt_obj_bytes_new`, which read the same way. `is_str`
-- tells the two apart. `past` is what lies behind the text, where a lone backslash at the end
-- makes the code read one place too far.
use python_lite.Base.{
  ℕ, zero, suc, ◌+◌, ◌-◌, ◌*◌, ◌%◌, ◌^◌, Bool, ◌&&◌, ◌||◌, List, [], ◌∷◌, ◌++◌, Option, none, some,
  ltb, leb, ◌==◌, within, if◌then◌else◌, length,
}
use mathlib.Core.Option
use python_lite.Types.Digits.{hex, oct, is_hex, read_bounded}

-- What one round of the loop emits, and the text left.
abbrev pub Piece : Type 0
Piece = Option (List ℕ × List ℕ)

-- A bytes object keeps the low byte.
abbrev narrow : Bool → ℕ → ℕ
narrow is_str c = if is_str then c else c % 256

-- `_read_x_int(str + i, 8, _oct, &num, min(size - i, 3))`
octal : Bool → List ℕ → Piece
unfolding oct read_bounded
octal is_str cs =
    let most = if ltb (length cs) 3 then length cs else 3 in
    let (v, rest) = read_bounded 8 oct most 0 (8 ^ (most - 1)) cs in
    some (narrow is_str v ∷ [], rest)

-- Behind `\x`.
hex_escape : Bool → List ℕ → Piece
unfolding hex is_hex
hex_escape is_str (a ∷ b ∷ rest) =
    if is_hex a && is_hex b then some (narrow is_str (hex a * 16 + hex b) ∷ [], rest) else none
hex_escape is_str _ = none

-- Behind a backslash, at a character that is there.
after_backslash : Bool → ℕ → List ℕ → Piece
unfolding octal hex_escape
after_backslash is_str c cs =
    if c == b'a'
    then some (7 ∷ [], cs)
    else if c == b'b'
    then some (8 ∷ [], cs)
    else if c == b'f'
    then some (12 ∷ [], cs)
    else if c == b'n'
    then some (10 ∷ [], cs)
    else if c == b'r'
    then some (13 ∷ [], cs)
    else if c == b't'
    then some (9 ∷ [], cs)
    else if c == b'v'
    then some (11 ∷ [], cs)
    else if c == b'\'' || c == b'"' || c == b'\\'
    then some (c ∷ [], cs)
    else if within b'0' b'7' c
    then octal is_str (c ∷ cs)
    else if c == b'x'
    then hex_escape is_str cs
    else if is_str && leb 128 c
    then none
    else some (b'\\' ∷ c ∷ [], cs)

at_backslash : Bool → ℕ → List ℕ → Piece
at_backslash is_str past [] = some (past ∷ [], [])
at_backslash is_str past (c ∷ cs) = after_backslash is_str c cs

-- One round of `for (int i = 0; i < size;)`, on a text that is not empty.
unfoldable pub escape_step : Bool → ℕ → ℕ → List ℕ → Piece
unfolding at_backslash after_backslash
escape_step is_str past c cs = if c == b'\\' then at_backslash is_str past cs else some (c ∷ [], cs)

-- The loop, on fuel.
unfoldable pub escape_loop : Bool → ℕ → ℕ → List ℕ → Option (List ℕ)
escape_loop is_str past fuel [] = some []
escape_loop is_str past zero (c ∷ cs) = none
escape_loop is_str past (suc fuel) (c ∷ cs) = elim (escape_step is_str past c cs) [
  | none ↦ none
  | some (out, rest) ↦ Option.map (λ tail. out ++ tail) (escape_loop is_str past fuel rest)
]

-- The value of the new object; `none` is a NULL result.
unfoldable pub str_new : Bool → ℕ → List ℕ → Bool → Option (List ℕ)
unfolding escape_loop escape_step
str_new is_str past str is_raw =
    if is_raw then some str else escape_loop is_str past (length str) str
