-- ===== src/Parser/Levels.antt =====
-- How tightly a token binds what stands in front of it.
use python_lite.Base.{ℕ, ◌+◌, ◌<◌, ◌≡◌, ◌||◌, some, none, arith, ◌==◌, if◌then◌else◌}
use python_lite.Lexer.Token.{
  tk_kw_not, tk_kw_in, tk_kw_is, tk_kw_and, tk_kw_or, tk_op_pow, tk_op_floordiv, tk_op_lshift,
  tk_op_rshift, tk_op_le, tk_op_ge, tk_op_eq, tk_op_ne,
}
use python_lite.Parser.Expr.{simple_op}

-- 0 for what goes on with a term, 1 for `**`, i + 2 for an operator of the level i, 11 for the
-- others.
unfoldable pub bound : ℕ → ℕ
bound t =
    if t == b'.' || (t == b'[' || t == b'(')
    then 0
    else if t == tk_op_pow
    then 1
    else if t == b'*' || (t == b'@' || (t == b'/' || (t == tk_op_floordiv || t == b'%')))
    then 2
    else if t == b'+' || t == b'-'
    then 3
    else if t == tk_op_lshift || t == tk_op_rshift
    then 4
    else if t == b'&'
    then 5
    else if t == b'^'
    then 6
    else if t == b'|'
    then 7
    else if t == tk_kw_in
        || (t == b'<'
            || (t == tk_op_le
                || (t == b'>'
                    || (t == tk_op_ge
                        || (t == tk_op_ne
                            || (t == tk_op_eq || (t == tk_kw_is || t == tk_kw_not)))))))
    then 8
    else if t == tk_kw_and
    then 9
    else if t == tk_kw_or
    then 10
    else 11

pub simple_op-bound : (i t op : ℕ) → simple_op i t ≡ some op → bound t ≡ i + 2
unfolding simple_op bound
simple_op-bound i t op h = ground arith

pub simple_op-none : (i t : ℕ) → i + 2 < bound t → simple_op i t ≡ none
unfolding simple_op bound
simple_op-none i t h = ground arith
