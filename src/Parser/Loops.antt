-- ===== src/Parser/Loops.antt =====
-- `loop_control_replace`: where `break` and `continue` go.
use python_lite.Base.{
  ℕ, zero, suc, ◌+◌, ◌≤◌, ◌<◌, ◌≡◌, ◌≢◌, refl, ap, ◌∙◌, List, [], ◌∷◌, some, arith, leb,
  if◌then◌else◌, get_elem?, length,
}
use python_lite.Vm.Codes.{Instruction, offset, bc_jmp, bc_ph_break, bc_ph_continue}
use python_lite.Parser.State.{ParserState, done}
use python_lite.Parser.Emit.{replace_step, replace_from, loop_control_replace}

-- What becomes of an instruction at `i` of a loop at `depth` whose code starts at `start` and ends
-- before `size`: the jump back is written at `size`, and the loop is left behind it.
pub record Replaced (depth start size i : ℕ) (ins ins' : Instruction) : Type 0 where
  pub breaks :
      start ≤ i
      → ins.code ≡ bc_ph_break
      → ins.extra ≡ depth + 1
      → (ins'.code ≡ bc_jmp) × (offset (i + 1) ins'.extra ≡ size + 1)
  pub continues :
      start ≤ i
      → ins.code ≡ bc_ph_continue
      → ins.extra ≡ depth + 1
      → (ins'.code ≡ bc_jmp) × (offset (i + 1) ins'.extra ≡ size)
  pub before : i < start → ins' ≡ ins
  pub other_code : ins.code ≢ bc_ph_break → ins.code ≢ bc_ph_continue → ins' ≡ ins
  pub other_loop : ins.extra ≢ depth + 1 → ins' ≡ ins

abbrev replaced : ℕ → ℕ → ℕ → ℕ → Instruction → Instruction
replaced depth start size i ins = if leb start i then replace_step depth size i ins else ins

replaced-Replaced :
    (depth start size i : ℕ) (ins : Instruction)
    → size < 32768
    → i < size
    → Replaced depth start size i ins (replaced depth start size i ins)
unfolding replace_step offset
replaced-Replaced depth start size i ins few here = record {
  breaks = λ s c e. ground arith;
  continues = λ s c e. ground arith;
  before = λ b. ground arith;
  other_code = λ b c. ground arith;
  other_loop = λ e. ground arith;
}

length-replace_from :
    (depth size start first : ℕ) (l : List Instruction)
    → length (replace_from depth size start first l) ≡ length l
unfolding replace_from
length-replace_from depth size start first [] = refl
length-replace_from depth size start first (ins ∷ l) =
    ap suc (length-replace_from depth size start (first + 1) l)

get_elem?-replace_from :
    (depth size start first : ℕ) (l : List Instruction) (i : ℕ) (ins : Instruction)
    → get_elem? l i ≡ some ins
    → get_elem? (replace_from depth size start first l) i
      ≡ some (replaced depth start size (first + i) ins)
unfolding replace_from
get_elem?-replace_from depth size start first [] i ins e = cc
get_elem?-replace_from depth size start first (x ∷ l) zero ins e =
    let same : x ≡ ins = cc in
    ap (λ y. some (replaced depth start size first y)) same
    ∙ ap (λ k. some (replaced depth start size k ins)) (omega arith)
get_elem?-replace_from depth size start first (x ∷ l) (suc i) ins e =
    get_elem?-replace_from depth size start (first + 1) l i ins e
    ∙ ap (λ k. some (replaced depth start size k ins)) (omega arith)

pub get_elem?-below :
    (l : List Instruction) (i : ℕ) (ins : Instruction) → get_elem? l i ≡ some ins → i < length l
get_elem?-below [] i ins e = cc
get_elem?-below (x ∷ l) zero ins e = omega arith
get_elem?-below (x ∷ l) (suc i) ins e = omega (arith, get_elem?-below l i ins e)

-- At the end of the body of a loop, with less than 2 ^ 15 instructions: every `break` of this loop
-- becomes a jump behind the instruction that is written next, and every `continue` a jump to it;
-- no other instruction changes, nor their number.
pub loop_control_replace-Replaced :
    (start : ℕ) (ps : ParserState)
    → length ps.info.code.opcodes < 32768
    → (ps' : ParserState) × (loop_control_replace start ps ≡ done tt ps')
      × (length ps'.info.code.opcodes ≡ length ps.info.code.opcodes)
      × ((i : ℕ) (ins : Instruction)
          → get_elem? ps.info.code.opcodes i ≡ some ins
          → (ins' : Instruction) × (get_elem? ps'.info.code.opcodes i ≡ some ins')
            × Replaced ps.info.loop_depth start (length ps.info.code.opcodes) i ins ins')
unfolding loop_control_replace
loop_control_replace-Replaced start ps few =
    let l = ps.info.code.opcodes in
    let depth = ps.info.loop_depth in
    (
      _,
      refl,
      length-replace_from depth (length l) start 0 l,
      λ i ins e. (
        replaced depth start (length l) i ins,
        get_elem?-replace_from depth (length l) start 0 l i ins e
            ∙ ap (λ k. some (replaced depth start (length l) k ins)) (omega arith),
        replaced-Replaced depth start (length l) i ins few (get_elem?-below l i ins e),
      ),
    )
