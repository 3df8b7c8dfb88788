-- ===== src/Lexer/Token.antt =====
-- The token values of lexer.h and their names. A token's value is a number: the code of an ASCII
-- delimiter, or a kind from `first_token` on.
use Prim.Native.String.{String}
use python_lite.Base.{ℕ, ◌+◌, ◌-◌, List, [], ◌∷◌, Option, none, leb, if◌then◌else◌, get_elem?}

abbrev pub first_token : ℕ
first_token = 128

abbrev pub tk_end : ℕ
tk_end = first_token

abbrev pub tk_comments : ℕ
tk_comments = first_token + 1

abbrev pub tk_newline : ℕ
tk_newline = first_token + 2

abbrev pub tk_indent : ℕ
tk_indent = first_token + 3

abbrev pub tk_dedent : ℕ
tk_dedent = first_token + 4

abbrev pub tk_name : ℕ
tk_name = first_token + 5

abbrev pub tk_int : ℕ
tk_int = first_token + 6

abbrev pub tk_float : ℕ
tk_float = first_token + 7

abbrev pub tk_string : ℕ
tk_string = first_token + 8

abbrev pub tk_bytes : ℕ
tk_bytes = first_token + 9

abbrev pub tk_kw_false : ℕ
tk_kw_false = first_token + 10

abbrev pub tk_kw_none : ℕ
tk_kw_none = first_token + 11

abbrev pub tk_kw_true : ℕ
tk_kw_true = first_token + 12

abbrev pub tk_kw_and : ℕ
tk_kw_and = first_token + 13

abbrev pub tk_kw_as : ℕ
tk_kw_as = first_token + 14

abbrev pub tk_kw_assert : ℕ
tk_kw_assert = first_token + 15

abbrev pub tk_kw_break : ℕ
tk_kw_break = first_token + 16

abbrev pub tk_kw_class : ℕ
tk_kw_class = first_token + 17

abbrev pub tk_kw_continue : ℕ
tk_kw_continue = first_token + 18

abbrev pub tk_kw_def : ℕ
tk_kw_def = first_token + 19

abbrev pub tk_kw_del : ℕ
tk_kw_del = first_token + 20

abbrev pub tk_kw_elif : ℕ
tk_kw_elif = first_token + 21

abbrev pub tk_kw_else : ℕ
tk_kw_else = first_token + 22

abbrev pub tk_kw_except : ℕ
tk_kw_except = first_token + 23

abbrev pub tk_kw_finally : ℕ
tk_kw_finally = first_token + 24

abbrev pub tk_kw_for : ℕ
tk_kw_for = first_token + 25

abbrev pub tk_kw_from : ℕ
tk_kw_from = first_token + 26

abbrev pub tk_kw_global : ℕ
tk_kw_global = first_token + 27

abbrev pub tk_kw_if : ℕ
tk_kw_if = first_token + 28

abbrev pub tk_kw_import : ℕ
tk_kw_import = first_token + 29

abbrev pub tk_kw_in : ℕ
tk_kw_in = first_token + 30

abbrev pub tk_kw_is : ℕ
tk_kw_is = first_token + 31

abbrev pub tk_kw_lambda : ℕ
tk_kw_lambda = first_token + 32

abbrev pub tk_kw_nonlocal : ℕ
tk_kw_nonlocal = first_token + 33

abbrev pub tk_kw_not : ℕ
tk_kw_not = first_token + 34

abbrev pub tk_kw_or : ℕ
tk_kw_or = first_token + 35

abbrev pub tk_kw_pass : ℕ
tk_kw_pass = first_token + 36

abbrev pub tk_kw_raise : ℕ
tk_kw_raise = first_token + 37

abbrev pub tk_kw_return : ℕ
tk_kw_return = first_token + 38

abbrev pub tk_kw_try : ℕ
tk_kw_try = first_token + 39

abbrev pub tk_kw_while : ℕ
tk_kw_while = first_token + 40

abbrev pub tk_kw_with : ℕ
tk_kw_with = first_token + 41

abbrev pub tk_kw_yield : ℕ
tk_kw_yield = first_token + 42

abbrev pub tk_op_pow : ℕ
tk_op_pow = first_token + 43

abbrev pub tk_op_floordiv : ℕ
tk_op_floordiv = first_token + 44

abbrev pub tk_op_lshift : ℕ
tk_op_lshift = first_token + 45

abbrev pub tk_op_rshift : ℕ
tk_op_rshift = first_token + 46

abbrev pub tk_op_le : ℕ
tk_op_le = first_token + 47

abbrev pub tk_op_ge : ℕ
tk_op_ge = first_token + 48

abbrev pub tk_op_eq : ℕ
tk_op_eq = first_token + 49

abbrev pub tk_op_ne : ℕ
tk_op_ne = first_token + 50

abbrev pub tk_de_ret_type : ℕ
tk_de_ret_type = first_token + 51

abbrev pub tk_de_plus_eq : ℕ
tk_de_plus_eq = first_token + 52

abbrev pub tk_de_minus_eq : ℕ
tk_de_minus_eq = first_token + 53

abbrev pub tk_de_mul_eq : ℕ
tk_de_mul_eq = first_token + 54

abbrev pub tk_de_div_eq : ℕ
tk_de_div_eq = first_token + 55

abbrev pub tk_de_floordiv_eq : ℕ
tk_de_floordiv_eq = first_token + 56

abbrev pub tk_de_mod_eq : ℕ
tk_de_mod_eq = first_token + 57

abbrev pub tk_de_matmul_eq : ℕ
tk_de_matmul_eq = first_token + 58

abbrev pub tk_de_bitand_eq : ℕ
tk_de_bitand_eq = first_token + 59

abbrev pub tk_de_bitor_eq : ℕ
tk_de_bitor_eq = first_token + 60

abbrev pub tk_de_bitxor_eq : ℕ
tk_de_bitxor_eq = first_token + 61

abbrev pub tk_de_rshift_eq : ℕ
tk_de_rshift_eq = first_token + 62

abbrev pub tk_de_lshift_eq : ℕ
tk_de_lshift_eq = first_token + 63

abbrev pub tk_de_pow_eq : ℕ
tk_de_pow_eq = first_token + 64

-- `pylt_lex_tokens`, in the order of the kinds.
abbrev pub tokens : List String
tokens =
    "<END>" ∷ "<COMMENTS>" ∷ "<NEWLINE>" ∷ "<INDENT>" ∷ "<DEDENT>" ∷ "<NAME>" ∷ "<INT>" ∷ "<FLOAT>"
    ∷ "<STRING>" ∷ "<BYTES>" ∷ "False" ∷ "None" ∷ "True" ∷ "and" ∷ "as" ∷ "assert" ∷ "break"
    ∷ "class" ∷ "continue" ∷ "def" ∷ "del" ∷ "elif" ∷ "else" ∷ "except" ∷ "finally" ∷ "for" ∷ "from"
    ∷ "global" ∷ "if" ∷ "import" ∷ "in" ∷ "is" ∷ "lambda" ∷ "nonlocal" ∷ "not" ∷ "or" ∷ "pass"
    ∷ "raise" ∷ "return" ∷ "try" ∷ "while" ∷ "with" ∷ "yield" ∷ "**" ∷ "//" ∷ "<<" ∷ ">>" ∷ "<="
    ∷ ">=" ∷ "==" ∷ "!=" ∷ "->" ∷ "+=" ∷ "-=" ∷ "*=" ∷ "/=" ∷ "//=" ∷ "%=" ∷ "@=" ∷ "&=" ∷ "|="
    ∷ "^=" ∷ ">>=" ∷ "<<=" ∷ "**=" ∷ []

-- `pylt_lex_get_token_name`; `none` is NULL.
unfoldable pub get_token_name : ℕ → Option String
get_token_name token =
    if leb first_token token then get_elem? tokens (token - first_token) else none
