-- ===== src/Lexer/Keywords.antt =====
-- `read_kw_or_id`: the nested switches that tell a keyword from a name.
pub mod Switches
pub mod Correct
use python_lite.Base.{ℕ, List, [], ◌∷◌, ◌==◌, if◌then◌else◌, codes, length}
use python_lite.Lexer.Token.{
  tk_name, tk_kw_as, tk_kw_and, tk_kw_assert, tk_kw_break, tk_kw_class, tk_kw_continue, tk_kw_def,
  tk_kw_del, tk_kw_else, tk_kw_elif, tk_kw_except, tk_kw_for, tk_kw_from, tk_kw_finally,
  tk_kw_global, tk_kw_if, tk_kw_in, tk_kw_is, tk_kw_import, tk_kw_lambda, tk_kw_not, tk_kw_nonlocal,
  tk_kw_or, tk_kw_pass, tk_kw_raise, tk_kw_return, tk_kw_try, tk_kw_with, tk_kw_while, tk_kw_yield,
  tk_kw_false, tk_kw_none, tk_kw_true,
}

-- A row of `KW_NEXT(*++p, c)` over the characters of `expected`, then `return token`.
unfoldable pub kw_next : List ℕ → ℕ → List ℕ → ℕ
kw_next [] token p = token
kw_next (e ∷ expected) token [] = tk_name
kw_next (e ∷ expected) token (c ∷ p) = if c == e then kw_next expected token p else tk_name

-- `switch (*++p)` behind `de`, behind `el` and behind `i`.
pub switch_de : List ℕ → ℕ
switch_de (c ∷ p) = if c == b'f' then tk_kw_def else if c == b'l' then tk_kw_del else tk_name
switch_de [] = tk_name

pub switch_el : List ℕ → ℕ
unfolding kw_next
switch_el (c ∷ p) =
    if c == b's'
    then kw_next (codes "e") tk_kw_else p
    else if c == b'i'
    then kw_next (codes "f") tk_kw_elif p
    else tk_name
switch_el [] = tk_name

pub switch_i : List ℕ → ℕ
switch_i (c ∷ p) =
    if c == b'f'
    then tk_kw_if
    else if c == b'n'
    then tk_kw_in
    else if c == b's'
    then tk_kw_is
    else tk_name
switch_i [] = tk_name

-- `KW_NEXT(*++p, e)` before such a switch.
pub kw_then : ℕ → (List ℕ → ℕ) → List ℕ → ℕ
kw_then e k [] = tk_name
kw_then e k (c ∷ p) = if c == e then k p else tk_name

-- The outer switch, on the first character; `p` is what follows it and `size` the whole length.
unfoldable pub kw_switch : ℕ → List ℕ → ℕ → ℕ
unfolding kw_next switch_de switch_el switch_i kw_then
kw_switch first p size =
    if first == b'a'
    then (if size == 2
        then kw_next (codes "s") tk_kw_as p
        else if size == 3
        then kw_next (codes "nd") tk_kw_and p
        else if size == 6
        then kw_next (codes "ssert") tk_kw_assert p
        else tk_name)
    else if first == b'b'
    then (if size == 5 then kw_next (codes "reak") tk_kw_break p else tk_name)
    else if first == b'c'
    then (if size == 5
        then kw_next (codes "lass") tk_kw_class p
        else if size == 8
        then kw_next (codes "ontinue") tk_kw_continue p
        else tk_name)
    else if first == b'd'
    then (if size == 3 then kw_then b'e' switch_de p else tk_name)
    else if first == b'e'
    then (if size == 4
        then kw_then b'l' switch_el p
        else if size == 6
        then kw_next (codes "xcept") tk_kw_except p
        else tk_name)
    else if first == b'f'
    then (if size == 3
        then kw_next (codes "or") tk_kw_for p
        else if size == 4
        then kw_next (codes "rom") tk_kw_from p
        else if size == 7
        then kw_next (codes "inally") tk_kw_finally p
        else tk_name)
    else if first == b'g'
    then (if size == 6 then kw_next (codes "lobal") tk_kw_global p else tk_name)
    else if first == b'i'
    then (if size == 2
        then switch_i p
        else if size == 6
        then kw_next (codes "mport") tk_kw_import p
        else tk_name)
    else if first == b'l'
    then (if size == 6 then kw_next (codes "ambda") tk_kw_lambda p else tk_name)
    else if first == b'n'
    then (if size == 3
        then kw_next (codes "ot") tk_kw_not p
        else if size == 8
        then kw_next (codes "onlocal") tk_kw_nonlocal p
        else tk_name)
    else if first == b'o'
    then (if size == 2 then kw_next (codes "r") tk_kw_or p else tk_name)
    else if first == b'p'
    then (if size == 4 then kw_next (codes "ass") tk_kw_pass p else tk_name)
    else if first == b'r'
    then (if size == 5
        then kw_next (codes "aise") tk_kw_raise p
        else if size == 6
        then kw_next (codes "eturn") tk_kw_return p
        else tk_name)
    else if first == b't'
    then (if size == 3 then kw_next (codes "ry") tk_kw_try p else tk_name)
    else if first == b'w'
    then (if size == 4
        then kw_next (codes "ith") tk_kw_with p
        else if size == 5
        then kw_next (codes "hile") tk_kw_while p
        else tk_name)
    else if first == b'y'
    then (if size == 5 then kw_next (codes "ield") tk_kw_yield p else tk_name)
    else if first == b'F'
    then (if size == 5 then kw_next (codes "alse") tk_kw_false p else tk_name)
    else if first == b'N'
    then (if size == 4 then kw_next (codes "one") tk_kw_none p else tk_name)
    else if first == b'T'
    then (if size == 4 then kw_next (codes "rue") tk_kw_true p else tk_name)
    else tk_name

-- The buffer is never empty where the lexer calls this.
unfoldable pub read_kw_or_id : List ℕ → ℕ
unfolding kw_switch
read_kw_or_id [] = tk_name
read_kw_or_id (first ∷ p) = kw_switch first p (length (first ∷ p))
