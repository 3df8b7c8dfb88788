-- ===== src/Parser/Guard.antt =====
-- The case of `try` of `parse_try_compound_stmt` of parser.c.
use mathlib.Core.List.{reverse}
use python_lite.Base.{
  ℕ, zero, suc, ◌+◌, ◌-◌, ◌*◌, Bool, true, false, ◌&&◌, List, [], ◌∷◌, ◌++◌, Option, none, some,
  ◌==◌, if◌then◌else◌, length, map,
}
use python_lite.Lexer.Token.{tk_name, tk_kw_as, tk_kw_except, tk_kw_finally}
use python_lite.Vm.Codes.{
  Instruction, bc_load_val, bc_expt_setup, bc_expt_popn, bc_jmp, bc_set_val, bc_pop, bc_del_name,
  bc_nop,
}
use python_lite.Parser.State.{
  Const, value, base_exception, out_of_fuel, invalid_syntax, except_must_be_last,
  try_expected_finally, M, ◌>>=◌, ◌>>◌, return, fail, modify, peek, peek_obj, next, accept,
}
use python_lite.Parser.Emit.{
  write_ins, store_const, opcode_size, opcode_change, opcode_set_extra, with_opcodes, take, drop,
}
use python_lite.Parser.Branch.{suite}

-- `struct TryBox`
pub record TryBox : Type 0 where
  pub jmp_pos : ℕ
  pub expt_name : Const

-- The head of an `except`: the names in parentheses, or the one name, and the name behind `as`.
pub record Clause : Type 0 where
  pub expt_names : Option (List ℕ)
  pub expt_name : Const
  pub alias : Option ℕ

-- The name behind `as`.
unfoldable pub alias_part : M (Option ℕ)
unfolding next
alias_part = do
  tk ← peek
  if tk == tk_kw_as
      then (do
        next
        tk' ← peek
        obj ← peek_obj
        if tk' == tk_name then (do next; return (some obj)) else fail invalid_syntax)
      else return none

-- The names in parentheses, which need no ',' between them.
unfoldable pub names_loop : ℕ → List ℕ → M (List ℕ)
unfolding next
names_loop zero names ps = out_of_fuel
names_loop (suc fuel) names ps =
    let more : List ℕ → M (List ℕ) = λ l ps'. names_loop fuel l ps' in
    (do
      tk ← peek
      obj ← peek_obj
      if tk == tk_name
          then (do
            next
            tk' ← peek
            if tk' == b',' then next else return tt
            more (names ++ obj ∷ []))
          else return names)
      ps

-- `except` up to the ':', which is read.
unfoldable pub except_head : ℕ → M Clause
unfolding next accept names_loop alias_part
except_head fuel = do
  next
  tk ← peek
  obj ← peek_obj
  clause ←
      (if tk == b'('
        then (do
          next
          names ← names_loop fuel []
          accept b')'
          alias ← alias_part
          return (record { expt_names = some names; expt_name = base_exception; alias = alias }))
        else if tk == tk_name
        then (do
          next
          alias ← alias_part
          return (record { expt_names = none; expt_name = value obj; alias = alias }))
        else return (record { expt_names = none; expt_name = base_exception; alias = none }))
  accept b':'
  return clause

-- The boxes of an `except` at `jmp_pos`, the last one on top.
unfoldable pub boxes_of : ℕ → Clause → Option (List ℕ) → List TryBox
boxes_of jmp_pos c none = record { jmp_pos = jmp_pos; expt_name = c.expt_name } ∷ []
boxes_of jmp_pos c (some names) =
    reverse (map (λ n. record { jmp_pos = jmp_pos; expt_name = value n }) names)

-- `memmove` of the instructions behind `start`, after `offset` ones have been added to the end.
abbrev shift : ℕ → ℕ → List Instruction → List Instruction
shift start offset l = take (start + offset) l ++ take (length l - offset - start) (drop start l)

unfoldable pub write_nops : ℕ → M (Unit {0})
unfolding write_ins
write_nops zero = return tt
write_nops (suc n) = write_ins bc_nop 0 0 >> write_nops n

abbrev become : ℕ → Instruction → Instruction
become code ins = record ins { code = code }

-- `is_base` tells whether the object of a name is the string `BaseException`.
module _ (same : Const → Const → Bool) (is_base : ℕ → Bool) where
  abbrev base_name : Const → Bool
  base_name base_exception = true
  base_name (value n) = is_base n
  base_name c = false

  -- `pylt_obj_list_has(expt_names, BaseException)`
  abbrev has_base : List ℕ → Bool
  has_base [] = false
  has_base (n ∷ names) = if is_base n then true else has_base names

  unfoldable pub catches_base : Clause → Option (List ℕ) → Bool
  catches_base c none = base_name c.expt_name
  catches_base c (some names) = has_base names

  -- The instructions of the exception blocks, for the boxes from the top.
  unfoldable pub setup_loop : ℕ → ℕ → ℕ → List TryBox → M (Unit {0})
  unfolding opcode_change store_const
  setup_loop first_setup offset i [] = return tt
  setup_loop first_setup offset i (tb ∷ boxes) = do
    opcode_change (first_setup + i * 2 - 1) (become bc_load_val)
    extra ← store_const same tb.expt_name
    opcode_set_extra (first_setup + i * 2 - 1) extra
    opcode_change (first_setup + i * 2) (become bc_expt_setup)
    opcode_set_extra (first_setup + i * 2) (tb.jmp_pos - first_setup + offset - i * 2)
    size ← opcode_size
    opcode_set_extra (tb.jmp_pos + offset) (size - tb.jmp_pos - offset - 1)
    setup_loop first_setup offset (i + 1) boxes

  -- The `switch` on the number of boxes.
  unfoldable pub finish_boxes : ℕ → List TryBox → M (Unit {0})
  unfolding opcode_change store_const write_nops setup_loop
  finish_boxes first_setup [] = do
    tk ← peek
    if tk == tk_kw_finally
        then (do
          opcode_change (first_setup - 1) (become bc_nop)
          opcode_change first_setup (become bc_nop))
        else fail try_expected_finally
  finish_boxes first_setup (tb ∷ []) = do
    extra ← store_const same tb.expt_name
    opcode_set_extra (first_setup - 1) extra
    opcode_set_extra first_setup (tb.jmp_pos - first_setup)
    size ← opcode_size
    opcode_set_extra tb.jmp_pos (size - tb.jmp_pos - 1)
  finish_boxes first_setup (tb ∷ tb' ∷ boxes) = do
    let offset = (length boxes + 1) * 2
    write_nops offset
    modify (with_opcodes (shift (first_setup + 1) offset))
    setup_loop first_setup offset 0 (tb ∷ tb' ∷ boxes)

  module _ (block simple : M (Unit {0})) where
    abbrev alias_set : Option ℕ → M (Option ℕ)
    unfolding store_const write_ins
    alias_set none = return none
    alias_set (some n) = do
      i ← store_const same (value n)
      write_ins bc_set_val 0 i
      return (some i)

    abbrev alias_delete : Option ℕ → M (Unit {0})
    unfolding write_ins
    alias_delete none = return tt
    alias_delete (some i) = write_ins bc_del_name 0 i

    -- An `except` with its block: whether a handler of every exception has been seen, and the
    -- boxes.
    unfoldable pub except_step : ℕ → Bool → List TryBox → M (Bool × List TryBox)
    unfolding except_head catches_base boxes_of write_ins alias_set suite alias_delete
    except_step fuel base_catched boxes = do
      clause ← except_head fuel
      let base = catches_base clause clause.expt_names
      if base && base_catched then fail except_must_be_last else (do
        jmp_pos ← opcode_size
        write_ins bc_jmp 0 0
        aindex ← alias_set clause.alias
        write_ins bc_pop 0 0
        suite block simple
        alias_delete aindex
        return (
          if base then true else base_catched,
          boxes_of jmp_pos clause clause.expt_names ++ boxes,
        ))

    unfoldable pub except_loop : ℕ → Bool → List TryBox → M (List TryBox)
    unfolding except_step
    except_loop zero base_catched boxes ps = out_of_fuel
    except_loop (suc fuel) base_catched boxes ps =
        let again : Bool → List TryBox → M (List TryBox) = λ b l ps'. except_loop fuel b l ps' in
        (do
          tk ← peek
          if tk == tk_kw_except
              then (do (b, l) ← except_step fuel base_catched boxes; again b l)
              else return boxes)
          ps

    unfoldable pub try_stmt : ℕ → M (Unit {0})
    unfolding next accept write_ins suite except_loop finish_boxes
    try_stmt fuel = do
      next
      accept b':'
      write_ins bc_load_val 0 0
      first_setup ← opcode_size
      write_ins bc_expt_setup 0 0
      suite block simple
      boxes ← except_loop fuel false []
      finish_boxes first_setup boxes
      write_ins bc_expt_popn 0 (length boxes)
      tk ← peek
      if tk == tk_kw_finally then (do next; accept b':'; suite block simple) else return tt
