-- ===== src/Parser/Jumps.antt =====
-- The loop at the end of an `if` that changes the jumps of its arms.
use python_lite.Base.{
  ℕ, zero, suc, ◌+◌, ◌-◌, ◌≤◌, ◌<◌, ◌≡◌, ◌≢◌, refl, ap, sym, ◌∙◌, Bool, true, false, ◌||◌, List, [],
  ◌∷◌, some, arith, ◌==◌, if◌then◌else◌, get_elem?, set, length, Bool-cases, if_false, ◌⊎◌, inl,
  inr,
}
use python_lite.Vm.Codes.{Instruction, offset}
use python_lite.Parser.State.{ParserState, done, ◌>>=◌}
use python_lite.Parser.Emit.{with_opcodes, set_extra, opcode_get, opcode_change}
use python_lite.Parser.Branch.{patch_loop}
use python_lite.Parser.Loops.{get_elem?-below}
use python_lite.Parser.Eventually.{bind_done}
use python_lite.Parser.Writes.{length-set}

-- From behind the first of the instructions `chain` to the end: each leads behind the next one, and
-- the last one to the end.
abbrev pub Chain : ℕ → List Instruction → ℕ → List ℕ → Type 0
Chain final l pos [] = pos ≡ final
Chain final l pos (q ∷ chain) =
    (ins : Instruction) × (pos ≡ suc q)
    × (get_elem? l q ≡ some ins)
    × (pos < offset pos ins.extra)
    × Chain final l (offset pos ins.extra) chain

abbrev pub on_chain : ℕ → List ℕ → Bool
on_chain i [] = false
on_chain i (q ∷ chain) = i == q || on_chain i chain

-- What becomes of the instruction at `i`.
abbrev pub aimed : ℕ → List ℕ → ℕ → Instruction → Instruction
aimed final chain i ins = if on_chain i chain then set_extra (final - suc i) ins else ins

-- Each link goes on by one at least.
Chain-short :
    (final : ℕ) (l : List Instruction) (pos : ℕ) (chain : List ℕ)
    → Chain final l pos chain
    → pos + length chain ≤ final
Chain-short final l pos [] e = omega arith
Chain-short final l pos (q ∷ chain) (ins, at, here, more, c) =
    omega (arith, Chain-short final l (offset pos ins.extra) chain c)

get_elem?-set_other :
    (l : List Instruction) (q : ℕ) (x : Instruction) (i : ℕ)
    → i ≢ q
    → get_elem? (set l q x) i ≡ get_elem? l i
get_elem?-set_other [] q x i ne = refl
get_elem?-set_other (y ∷ l) zero x zero ne = absurd (ne refl)
get_elem?-set_other (y ∷ l) zero x (suc i) ne = refl
get_elem?-set_other (y ∷ l) (suc q) x zero ne = refl
get_elem?-set_other (y ∷ l) (suc q) x (suc i) ne = get_elem?-set_other l q x i (λ e. ne (ap suc e))

get_elem?-set_self :
    (l : List Instruction) (q : ℕ) (x : Instruction) {ins : Instruction}
    → get_elem? l q ≡ some ins
    → get_elem? (set l q x) q ≡ some x
get_elem?-set_self [] q x e = cc
get_elem?-set_self (y ∷ l) zero x e = refl
get_elem?-set_self (y ∷ l) (suc q) x e = get_elem?-set_self l q x e

Chain-set :
    (final : ℕ) (l : List Instruction) (pos : ℕ) (chain : List ℕ) (q : ℕ) (x : Instruction)
    → suc q < pos
    → Chain final l pos chain
    → Chain final (set l q x) pos chain
Chain-set final l pos [] q x lt e = e
Chain-set final l pos (p ∷ chain) q x lt (ins, at, here, more, c) = (
  ins,
  at,
  get_elem?-set_other l q x p (λ e. omega arith) ∙ here,
  more,
  Chain-set final l (offset pos ins.extra) chain q x (omega arith) c,
)

off-Chain :
    (final : ℕ) (l : List Instruction) (pos : ℕ) (chain : List ℕ) (i : ℕ)
    → suc i < pos
    → Chain final l pos chain
    → on_chain i chain ≡ false
off-Chain final l pos [] i lt c = refl
off-Chain final l pos (q ∷ chain) i lt (ins, at, here, more, c) =
    ground (arith, off-Chain final l (offset pos ins.extra) chain i (omega arith) c)

-- The loop has changed the code to `l'`.
pub record Aimed (final : ℕ) (chain : List ℕ) (l l' : List Instruction) : Type 0 where
  pub same_length : length l' ≡ length l
  pub at :
      (i : ℕ) (ins : Instruction)
      → get_elem? l i ≡ some ins
      → get_elem? l' i ≡ some (aimed final chain i ins)

-- A link is changed and the others after it.
Aimed-step :
    (final : ℕ) (q : ℕ) (chain : List ℕ) (l l' : List Instruction) (old : Instruction)
    → get_elem? l q ≡ some old
    → on_chain q chain ≡ false
    → Aimed final chain (set l q (set_extra (final - suc q) old)) l'
    → Aimed final (q ∷ chain) l l'
Aimed-step final q chain l l' old here off a = record {
  same_length = a.same_length ∙ length-set l q _;
  at = λ i ins e. at_link i ins e (Bool-cases (i == q));
}
  where
    at_link :
        (i : ℕ) (ins : Instruction)
        → get_elem? l i ≡ some ins
        → ((i == q) ≡ true) ⊎ ((i == q) ≡ false)
        → get_elem? l' i ≡ some (aimed final (q ∷ chain) i ins)
    at_link i ins e (inl eq) =
        let same : i ≡ q = ground arith in
        let old_ins : old ≡ ins = cc in
        let new : get_elem? l' q ≡ some (aimed final chain q (set_extra (final - suc q) old)) =
          a.at q _ (get_elem?-set_self l q _ here) in
        ground (arith, new)
    at_link i ins e (inr ne) =
        let old_ins : get_elem? l' i ≡ some (aimed final chain i ins) =
          a.at i ins (get_elem?-set_other l q _ i (λ eq. ground arith) ∙ e) in
        rw ne old_ins

change_at :
    (final q : ℕ) (ins : Instruction) (ps : ParserState)
    → get_elem? ps.info.code.opcodes q ≡ some ins
    → opcode_change q (set_extra (final - suc q)) ps
      ≡ done tt (with_opcodes (λ l. set l q (set_extra (final - suc q) ins)) ps)
unfolding opcode_change
change_at final q ins ps here = rw here

patch_round :
    (final fuel q : ℕ) (ins : Instruction) (ps : ParserState)
    → suc q ≢ final
    → get_elem? ps.info.code.opcodes q ≡ some ins
    → patch_loop (suc fuel) final (suc q) ps
      ≡ patch_loop fuel final
          (offset (suc q) ins.extra)
          (with_opcodes (λ l. set l q (set_extra (final - suc q) ins)) ps)
unfolding patch_loop opcode_get opcode_change
patch_round final fuel q ins ps ne here =
    let not_final : (suc q == final) ≡ false = ground arith in
    let not_zero : (suc q == 0) ≡ false = ground arith in
    let before : suc q - 1 ≡ q = omega arith in
    rw (not_final, not_zero, before, here, ◌>>=◌)
      (rw before (
        bind_done (opcode_change q (set_extra (final - suc q))) _ ps
          (change_at final q ins ps here)))

-- From a chain to the end of the code, with fuel above the number of its links: the loop ends;
-- every link now leads from its place to the end, and nothing else is changed.
patch_loop-Aimed :
    (final : ℕ) (chain : List ℕ) (fuel pos : ℕ) (ps : ParserState)
    → length chain < fuel
    → Chain final ps.info.code.opcodes pos chain
    → (l' : List Instruction) × (patch_loop fuel final pos ps ≡ done tt (with_opcodes (λ _. l') ps))
      × Aimed final chain ps.info.code.opcodes l'
unfolding patch_loop
patch_loop-Aimed final chain zero pos ps lt c = elim lt [ ]
patch_loop-Aimed final [] (suc fuel) pos ps lt e =
    (ps.info.code.opcodes, ground arith, record { same_length = refl; at = λ i ins here. here })
patch_loop-Aimed final (q ∷ chain) (suc fuel) pos ps lt (ins, at, here, more, c) =
    let l1 : List Instruction = set ps.info.code.opcodes q (set_extra (final - suc q) ins) in
    let low : pos < offset pos ins.extra = more in
    let c' : Chain final l1 (offset pos ins.extra) chain =
      Chain-set final ps.info.code.opcodes (offset pos ins.extra) chain q _ (omega arith) c in
    let low_end : offset pos ins.extra ≤ final =
      omega (arith, Chain-short final ps.info.code.opcodes (offset pos ins.extra) chain c) in
    let (l', run, a) =
      patch_loop-Aimed final chain fuel (offset pos ins.extra) (with_opcodes (λ _. l1) ps)
        (omega arith) c' in
    (
      l',
      ap (λ p. patch_loop (suc fuel) final p ps) at
          ∙ patch_round final fuel q ins ps (λ e. omega (arith, low_end)) here
          ∙ ap (λ p. patch_loop fuel final (offset p ins.extra) (with_opcodes (λ _. l1) ps))
              (sym at)
          ∙ run,
      Aimed-step final q chain ps.info.code.opcodes l' ins here
          (off-Chain final ps.info.code.opcodes (offset pos ins.extra) chain q (omega arith) c) a,
    )

aimed_lands :
    (final : ℕ) (chain : List ℕ) (i : ℕ) (ins : Instruction)
    → on_chain i chain ≡ true
    → final < 32768
    → i < final
    → ((aimed final chain i ins).code ≡ ins.code)
      × (offset (suc i) (aimed final chain i ins).extra ≡ final)
unfolding offset
aimed_lands final chain i ins on few lt = rw on (refl, ground arith)

-- At the end of an `if`, with less than 2 ^ 15 instructions: from a position from which the jumps
-- lead, each behind the next one and further on, to the end of the code, the loop ends by its own
-- test; each of these jumps then leads to the end of the code, and no other instruction changes,
-- nor their number.
pub patch_loop-Chain :
    (chain : List ℕ) (pos : ℕ) (ps : ParserState)
    → length ps.info.code.opcodes < 32768
    → Chain (length ps.info.code.opcodes) ps.info.code.opcodes pos chain
    → (l' : List Instruction) × (patch_loop
          (length ps.info.code.opcodes + 1)
          (length ps.info.code.opcodes)
          pos
          ps
        ≡ done tt (with_opcodes (λ _. l') ps))
      × (length l' ≡ length ps.info.code.opcodes)
      × ((i : ℕ) (ins : Instruction)
          → get_elem? ps.info.code.opcodes i ≡ some ins
          → (ins' : Instruction) × (get_elem? l' i ≡ some ins')
            × (on_chain i chain ≡ true
                → (ins'.code ≡ ins.code)
                  × (offset (suc i) ins'.extra ≡ length ps.info.code.opcodes))
            × (on_chain i chain ≡ false → ins' ≡ ins))
unfolding offset
patch_loop-Chain chain pos ps few c =
    let final : ℕ = length ps.info.code.opcodes in
    let (l', run, a) =
      patch_loop-Aimed final chain (final + 1) pos ps
        (omega (arith, Chain-short final ps.info.code.opcodes pos chain c)) c in
    (
      l',
      run,
      a.same_length,
      λ i ins e. (
        aimed final chain i ins,
        a.at i ins e,
        λ on. aimed_lands final chain i ins on few (get_elem?-below ps.info.code.opcodes i ins e),
        λ off. if_false (on_chain i chain) _ _ off,
      ),
    )
