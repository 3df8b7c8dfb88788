-- ===== src/Vm/Ops.antt =====
-- vm.c and vm.h: the numbers of the operators, their names, and the operator of a token.
use Prim.Native.String.{String}
use python_lite.Base.{ℕ, List, [], ◌∷◌, Option, get_elem?, ◌==◌, if◌then◌else◌}
use python_lite.Lexer.Token.{
  tk_de_bitand_eq, tk_de_bitor_eq, tk_de_bitxor_eq, tk_de_div_eq, tk_de_floordiv_eq,
  tk_de_lshift_eq, tk_de_matmul_eq, tk_de_minus_eq, tk_de_mod_eq, tk_de_mul_eq, tk_de_plus_eq,
  tk_de_pow_eq, tk_de_rshift_eq, tk_kw_and, tk_kw_in, tk_kw_is, tk_kw_not, tk_kw_or, tk_op_eq,
  tk_op_floordiv, tk_op_ge, tk_op_le, tk_op_lshift, tk_op_ne, tk_op_pow, tk_op_rshift,
}

abbrev pub op_or : ℕ
op_or = 0

abbrev pub op_and : ℕ
op_and = 1

abbrev pub op_not : ℕ
op_not = 2

abbrev pub op_in : ℕ
op_in = 3

abbrev pub op_not_in : ℕ
op_not_in = 4

abbrev pub op_is : ℕ
op_is = 5

abbrev pub op_is_not : ℕ
op_is_not = 6

abbrev pub op_lt : ℕ
op_lt = 7

abbrev pub op_le : ℕ
op_le = 8

abbrev pub op_gt : ℕ
op_gt = 9

abbrev pub op_ge : ℕ
op_ge = 10

abbrev pub op_ne : ℕ
op_ne = 11

abbrev pub op_eq : ℕ
op_eq = 12

abbrev pub op_bitor : ℕ
op_bitor = 13

abbrev pub op_bitxor : ℕ
op_bitxor = 14

abbrev pub op_bitand : ℕ
op_bitand = 15

abbrev pub op_lshift : ℕ
op_lshift = 16

abbrev pub op_rshift : ℕ
op_rshift = 17

abbrev pub op_plus : ℕ
op_plus = 18

abbrev pub op_minus : ℕ
op_minus = 19

abbrev pub op_mul : ℕ
op_mul = 20

abbrev pub op_matmul : ℕ
op_matmul = 21

abbrev pub op_div : ℕ
op_div = 22

abbrev pub op_floordiv : ℕ
op_floordiv = 23

abbrev pub op_mod : ℕ
op_mod = 24

abbrev pub op_pos : ℕ
op_pos = 25

abbrev pub op_neg : ℕ
op_neg = 26

abbrev pub op_bitnot : ℕ
op_bitnot = 27

abbrev pub op_pow : ℕ
op_pow = 28

-- `op_vals`
abbrev pub op_vals : List String
op_vals =
    "or" ∷ "and" ∷ "not" ∷ "in" ∷ "not in" ∷ "is" ∷ "is not" ∷ "<" ∷ "<=" ∷ ">" ∷ ">=" ∷ "!=" ∷ "=="
    ∷ "|" ∷ "^" ∷ "&" ∷ "<<" ∷ ">>" ∷ "+" ∷ "-" ∷ "*" ∷ "@" ∷ "/" ∷ "//" ∷ "%" ∷ "+x" ∷ "-x" ∷ "~x"
    ∷ "**" ∷ []

-- `pylt_vm_get_op_name`, with `none` past the end of the table.
unfoldable pub get_op_name : ℕ → Option String
get_op_name op = get_elem? op_vals op

unfoldable pub token_to_op_val : ℕ → ℕ
token_to_op_val tk =
    if tk == tk_kw_or
    then op_or
    else if tk == tk_kw_and
    then op_and
    else if tk == tk_kw_not
    then op_not
    else if tk == tk_kw_in
    then op_in
    else if tk == tk_kw_is
    then op_is
    else if tk == b'<'
    then op_lt
    else if tk == tk_op_le
    then op_le
    else if tk == b'>'
    then op_gt
    else if tk == tk_op_ge
    then op_ge
    else if tk == tk_op_ne
    then op_ne
    else if tk == tk_op_eq
    then op_eq
    else if tk == b'|'
    then op_bitor
    else if tk == b'^'
    then op_bitxor
    else if tk == b'&'
    then op_bitand
    else if tk == tk_op_lshift
    then op_lshift
    else if tk == tk_op_rshift
    then op_rshift
    else if tk == b'+'
    then op_plus
    else if tk == b'-'
    then op_minus
    else if tk == b'*'
    then op_mul
    else if tk == b'@'
    then op_matmul
    else if tk == b'/'
    then op_div
    else if tk == tk_op_floordiv
    then op_floordiv
    else if tk == b'%'
    then op_mod
    else if tk == b'~'
    then op_bitnot
    else if tk == tk_op_pow
    then op_pow
    else 0

unfoldable pub token_de_to_op_val : ℕ → ℕ
token_de_to_op_val tk =
    if tk == tk_de_plus_eq
    then op_plus
    else if tk == tk_de_minus_eq
    then op_minus
    else if tk == tk_de_mul_eq
    then op_mul
    else if tk == tk_de_div_eq
    then op_div
    else if tk == tk_de_floordiv_eq
    then op_floordiv
    else if tk == tk_de_mod_eq
    then op_mod
    else if tk == tk_de_matmul_eq
    then op_matmul
    else if tk == tk_de_bitand_eq
    then op_bitand
    else if tk == tk_de_bitor_eq
    then op_bitor
    else if tk == tk_de_bitxor_eq
    then op_bitxor
    else if tk == tk_de_rshift_eq
    then op_rshift
    else if tk == tk_de_lshift_eq
    then op_lshift
    else if tk == tk_de_pow_eq
    then op_pow
    else 0
