-- ===== src/Tests/StatementTheorems.antt =====
-- The theorems on the parser of statements, and on any tokens, at concrete inputs.
use python_lite.Base.{
  ℕ, suc, Bool, true, false, List, [], ◌∷◌, some, ◌≡◌, ◌≢◌, refl, arith, length, get_elem?,
}
use python_lite.Lexer.Token.{tk_name}
use python_lite.Parser.State.{ParserState, done, out_of_fuel}
use python_lite.Vm.Codes.{Instruction, offset, bc_jmp}
use python_lite.Parser.Emit.{with_opcodes}
use python_lite.Parser.Branch.{patch_loop}
use python_lite.Parser.Jumps.{on_chain, patch_loop-Chain}
use python_lite.Parser.Expr.{parse_try_expr}
use python_lite.Parser.Contract.{Keeps}
use python_lite.Parser.Results.{if_true_one}
use python_lite.Parser.Termination.{parse_try_expr-Keeps}
use python_lite.Tests.ParserRuns.{same, start, tok}

-- f(a, ) b
abbrev call : ParserState
call =
    start (tok tk_name 1)
      (tok b'(' 0 ∷ tok tk_name 2 ∷ tok b',' 0 ∷ tok b')' 0 ∷ tok tk_name 3 ∷ [])

parse_try_expr-Keeps_example :
    (parse_try_expr same 21 call ≢ out_of_fuel)
    × ((ok : Bool) (ps' : ParserState)
        → parse_try_expr same 21 call ≡ done ok ps'
        → Keeps (if_true_one ok) call ps')
parse_try_expr-Keeps_example = parse_try_expr-Keeps same 21 call (omega arith)

-- Two jumps, of which the first leads behind the second and that to the end.
abbrev jump : ℕ → Instruction
jump extra = record { code = bc_jmp; exarg = 0; extra = extra }

abbrev arms : ParserState
arms = with_opcodes (λ _. jump 1 ∷ jump 1 ∷ jump 0 ∷ []) call

patch_loop-Chain_example :
    (l' : List Instruction) × (patch_loop 4 3 1 arms ≡ done tt (with_opcodes (λ _. l') arms))
    × (length l' ≡ 3)
    × ((i : ℕ) (ins : Instruction)
        → get_elem? arms.info.code.opcodes i ≡ some ins
        → (ins' : Instruction) × (get_elem? l' i ≡ some ins')
          × (on_chain i (0 ∷ 1 ∷ []) ≡ true
              → (ins'.code ≡ ins.code) × (offset (suc i) ins'.extra ≡ 3))
          × (on_chain i (0 ∷ 1 ∷ []) ≡ false → ins' ≡ ins))
unfolding offset
patch_loop-Chain_example =
    patch_loop-Chain (0 ∷ 1 ∷ []) 1 arms (omega arith)
      (jump 1, refl, refl, omega arith, (jump 1, refl, refl, omega arith, refl))
