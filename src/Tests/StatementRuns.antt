-- ===== src/Tests/StatementRuns.antt =====
-- Runs of the parser on statements.
use python_lite.Base.{ℕ, false, List, [], ◌∷◌, ◌≡◌, refl, some, map, ◌==◌}
use python_lite.Lexer.Token.{
  tk_name, tk_int, tk_newline, tk_indent, tk_dedent, tk_end, tk_kw_if, tk_kw_elif, tk_kw_else,
  tk_kw_while, tk_kw_break, tk_kw_continue, tk_kw_try, tk_kw_except, tk_kw_pass, tk_kw_for,
  tk_kw_in, tk_kw_def, tk_kw_return,
}
use python_lite.Vm.Codes.{Instruction}
use python_lite.Parser.State.{
  CodeObject, Token, ParserState, Parse, done, error, undefined, out_of_fuel,
}
use python_lite.Parser.Program.{parser_init, parser_parse}
use python_lite.Tests.ParserRuns.{same, tok}

abbrev t : ℕ → Token
t v = tok v 0

abbrev name : ℕ → Token
name o = tok tk_name o

abbrev file : List Token → ParserState
file ts = parser_init (t 0) false (map some ts)

abbrev parse : List Token → Parse CodeObject
unfolding parser_parse parser_init
parse ts = parser_parse same (λ n. n == 77) 60 (file ts)

abbrev shown : Parse CodeObject → List (ℕ × ℕ × ℕ)
shown (done c ps) = map (λ (i : Instruction). (i.code, i.exarg, i.extra)) c.opcodes
shown (error e) = (99, 0, 0) ∷ []
shown undefined = (98, 0, 0) ∷ []
shown out_of_fuel = (97, 0, 0) ∷ []

-- while a: break
while_break :
    shown (parse (t tk_kw_while ∷ name 1 ∷ t b':' ∷ t tk_kw_break ∷ t tk_newline ∷ t tk_end ∷ []))
    ≡ (3, 0, 0) ∷ (13, 0, 2) ∷ (14, 0, 1) ∷ (15, 0, 4) ∷ (11, 0, 0) ∷ []
unfolding parser_parse parser_init
while_break = refl

-- if a: pass / elif b: c = 1 / elif d: pass / else: pass
if_elif_else :
    shown (
      parse (
        t tk_kw_if
        ∷ name 1
        ∷ t b':'
        ∷ t tk_kw_pass
        ∷ t tk_newline
        ∷ t tk_kw_elif
        ∷ name 2
        ∷ t b':'
        ∷ name 3
        ∷ t b'='
        ∷ tok tk_int 1
        ∷ t tk_newline
        ∷ t tk_kw_elif
        ∷ name 2
        ∷ t b':'
        ∷ t tk_kw_pass
        ∷ t tk_newline
        ∷ t tk_kw_else
        ∷ t b':'
        ∷ t tk_newline
        ∷ t tk_indent
        ∷ t tk_kw_pass
        ∷ t tk_newline
        ∷ t tk_dedent
        ∷ t tk_end
        ∷ []))
    ≡ (3, 0, 0)
      ∷ (13, 0, 1)
      ∷ (14, 0, 9)
      ∷ (3, 0, 1)
      ∷ (13, 0, 4)
      ∷ (6, 0, 0)
      ∷ (1, 0, 2)
      ∷ (16, 0, 0)
      ∷ (14, 0, 3)
      ∷ (3, 0, 1)
      ∷ (13, 0, 1)
      ∷ (14, 0, 0)
      ∷ (11, 0, 0)
      ∷ []
unfolding parser_parse parser_init
if_elif_else = refl

-- (a, b) = c
tuple_assign :
    shown (parse (name 1 ∷ t b',' ∷ name 2 ∷ t b'=' ∷ name 3 ∷ t tk_newline ∷ t tk_end ∷ []))
    ≡ (4, 0, 2) ∷ (37, 0, 2) ∷ (2, 1, 0) ∷ (2, 0, 1) ∷ (41, 9, 2) ∷ (17, 0, 2) ∷ (11, 0, 0) ∷ []
unfolding parser_parse parser_init
tuple_assign = refl

-- a = b.c = 1
chain_assign :
    shown (
      parse (
        name 1
        ∷ t b'='
        ∷ name 2
        ∷ t b'.'
        ∷ name 3
        ∷ t b'='
        ∷ tok tk_int 3
        ∷ t tk_newline
        ∷ t tk_end
        ∷ []))
    ≡ (6, 0, 2) ∷ (3, 0, 1) ∷ (24, 0, 2) ∷ (1, 0, 0) ∷ (16, 0, 0) ∷ (11, 0, 0) ∷ []
unfolding parser_parse parser_init
chain_assign = refl

-- for a in b: continue
for_continue :
    shown (
      parse (
        t tk_kw_for
        ∷ name 1
        ∷ t tk_kw_in
        ∷ name 2
        ∷ t b':'
        ∷ t tk_kw_continue
        ∷ t tk_newline
        ∷ t tk_end
        ∷ []))
    ≡ (4, 0, 1)
      ∷ (8, 17, 0)
      ∷ (18, 0, 4)
      ∷ (1, 0, 0)
      ∷ (16, 0, 0)
      ∷ (14, 0, 0)
      ∷ (15, 0, 5)
      ∷ (16, 0, 0)
      ∷ (28, 0, 0)
      ∷ (11, 0, 0)
      ∷ []
unfolding parser_parse parser_init
for_continue = refl

-- try: pass / except A: pass / except: pass
try_two_excepts :
    shown (
      parse (
        t tk_kw_try
        ∷ t b':'
        ∷ name 5
        ∷ t tk_newline
        ∷ t tk_kw_except
        ∷ name 1
        ∷ t b':'
        ∷ t tk_kw_pass
        ∷ t tk_newline
        ∷ t tk_kw_except
        ∷ t b':'
        ∷ t tk_kw_pass
        ∷ t tk_newline
        ∷ t tk_end
        ∷ []))
    ≡ (3, 0, 1)
      ∷ (34, 0, 7)
      ∷ (3, 0, 2)
      ∷ (34, 0, 3)
      ∷ (4, 0, 0)
      ∷ (16, 0, 0)
      ∷ (14, 0, 3)
      ∷ (16, 0, 0)
      ∷ (14, 0, 1)
      ∷ (16, 0, 0)
      ∷ (35, 0, 2)
      ∷ (11, 0, 0)
      ∷ []
unfolding parser_parse parser_init
try_two_excepts = refl

-- def f(a): return a
def_return :
    shown (
      parse (
        t tk_kw_def
        ∷ name 1
        ∷ t b'('
        ∷ name 2
        ∷ t b')'
        ∷ t b':'
        ∷ t tk_kw_return
        ∷ name 2
        ∷ t tk_newline
        ∷ t tk_end
        ∷ []))
    ≡ (5, 0, 0)
      ∷ (6, 0, 0)
      ∷ (6, 0, 1)
      ∷ (6, 0, 2)
      ∷ (5, 0, 0)
      ∷ (5, 0, 0)
      ∷ (8, 14, 0)
      ∷ (1, 0, 0)
      ∷ (16, 0, 0)
      ∷ (11, 0, 0)
      ∷ []
unfolding parser_parse parser_init
def_return = refl
