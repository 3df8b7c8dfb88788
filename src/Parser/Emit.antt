-- ===== src/Parser/Emit.antt =====
-- What the parser writes: instructions, constants, the cache of a left value, and the work on the
-- finished code of a loop and of a function.
use mathlib.Core.List.{reverse}
use python_lite.Base.{
  ℕ, zero, suc, ◌+◌, ◌-◌, ◌%◌, Bool, true, false, ◌&&◌, ◌||◌, List, [], ◌∷◌, ◌++◌, Option, none,
  some, leb, ◌==◌, if◌then◌else◌, length, get_elem?, set,
}
use python_lite.Vm.Codes.{
  Instruction, build_ins, bc_loadnone, bc_loadconst, bc_load_val, bc_load_val_, bc_set_val,
  bc_set_valx, bc_get_item_, bc_get_attr_, bc_get_slice_, bc_new_obj, bc_nop, bc_jmp, bc_ph_break,
  bc_ph_continue,
}
use python_lite.Parser.State.{
  Const, none_obj, value, code, CodeObject, ParserInfo, ParserState, done, undefined, M, ◌>>=◌,
  modify,
}

-- A change of `ps->info->code`.
abbrev pub with_code : (CodeObject → CodeObject) → ParserState → ParserState
with_code f ps = record ps { info = record ps.info { code = f ps.info.code } }

abbrev pub with_opcodes : (List Instruction → List Instruction) → ParserState → ParserState
with_opcodes f = with_code λ c. record c { opcodes = f c.opcodes }

unfoldable pub write_ins : ℕ → ℕ → ℕ → M (Unit {0})
unfolding build_ins
write_ins opcode exarg extra = modify λ ps.
    with_code
      (λ c. record c {
        opcodes = c.opcodes ++ build_ins opcode exarg extra ∷ [];
        lnotab = c.lnotab ++ ps.token.linenumber ∷ [];
      })
      ps

-- `OPCODE_SIZE`
abbrev pub opcode_size : M ℕ
opcode_size ps = done (length ps.info.code.opcodes) ps

-- An assignment to `OPCODE_GET(ps, pos)`, which must exist.
abbrev pub opcode_at : Option Instruction → ℕ → (Instruction → Instruction) → M (Unit {0})
opcode_at none pos f ps = undefined
opcode_at (some ins) pos f ps = done tt (with_opcodes (λ l. set l pos (f ins)) ps)

unfoldable pub opcode_change : ℕ → (Instruction → Instruction) → M (Unit {0})
opcode_change pos f ps = opcode_at (get_elem? ps.info.code.opcodes pos) pos f ps

abbrev pub set_extra : ℕ → Instruction → Instruction
set_extra extra ins = record ins { extra = extra % 65536 }

-- `OPCODE_GET(ps, pos).extra = extra`
abbrev pub opcode_set_extra : ℕ → ℕ → M (Unit {0})
opcode_set_extra pos extra = opcode_change pos (set_extra extra)

-- `OPCODE_GET(ps, pos).extra += 1`
abbrev pub opcode_incr_extra : ℕ → M (Unit {0})
opcode_incr_extra pos = opcode_change pos λ ins. set_extra (ins.extra + 1) ins

-- `OPCODE_GET(ps, pos)`
abbrev pub opcode_read : Option Instruction → M Instruction
opcode_read none ps = undefined
opcode_read (some ins) ps = done ins ps

unfoldable pub opcode_get : ℕ → M Instruction
opcode_get pos ps = opcode_read (get_elem? ps.info.code.opcodes pos) ps

-- `kv_top(opcodes)`, and an assignment to it.
unfoldable pub opcode_top : M Instruction
unfolding opcode_get
opcode_top ps = opcode_get (length ps.info.code.opcodes - 1) ps

unfoldable pub opcode_change_top : (Instruction → Instruction) → M (Unit {0})
unfolding opcode_change
opcode_change_top f ps = opcode_change (length ps.info.code.opcodes - 1) f ps

abbrev pub take {ℓ} : {A : Type ℓ} → ℕ → List A → List A
take zero xs = []
take (suc n) [] = []
take (suc n) (x ∷ xs) = x ∷ take n xs

abbrev pub drop {ℓ} : {A : Type ℓ} → ℕ → List A → List A
drop zero xs = xs
drop (suc n) [] = []
drop (suc n) (x ∷ xs) = drop n xs

-- `kv_popn(opcodes, num)`
unfoldable pub opcode_popn : ℕ → M (Unit {0})
opcode_popn num = modify (with_opcodes λ l. take (length l - num) l)

-- It returns the number of instructions that it copies.
unfoldable pub lval_check_cache_push : M ℕ
lval_check_cache_push ps =
    let cached = drop ps.lval_check.startcode ps.info.code.opcodes in
    done (length ps.info.code.opcodes - ps.lval_check.startcode)
      (record ps { lval_check = record ps.lval_check { bc_cache = cached } })

unfoldable pub lval_check_cache_pop : M (Unit {0})
lval_check_cache_pop = modify λ ps. record (with_opcodes (λ l. l ++ ps.lval_check.bc_cache) ps) {
  lval_check = record ps.lval_check { bc_cache = [] };
}

-- The state of the loop of `value_assign_fix`: whether the inner loop looks for a name, and the
-- two variables.
pub record Fix : Type 0 where
  pub inner : Bool
  pub si : ℕ
  pub seqsize : ℕ

-- A round of either loop, for one instruction.
unfoldable pub fix_step : Fix → Instruction → Fix × Instruction
fix_step f ins =
    if f.inner
    then (if ins.code == bc_load_val_
        then (record f { inner = false }, record ins { code = bc_load_val })
        else (f, ins))
    else if ins.code == bc_get_item_ || ins.code == bc_get_attr_ || ins.code == bc_get_slice_
    then (if f.seqsize == 0
        then (record f { inner = true }, record ins { code = ins.code + 1; exarg = 0 })
        else (
          record f { inner = true; si = f.si + 1 },
          record ins { code = ins.code + 1; exarg = f.si % 256 },
        ))
    else if ins.code == bc_load_val_
    then (if f.seqsize == 0
        then (f, record ins { code = bc_set_val })
        else (record f { si = f.si + 1 }, record ins { code = bc_set_valx; exarg = f.si % 256 }))
    else if ins.code == bc_new_obj
    then (record f { si = 0; seqsize = ins.extra }, record ins { code = bc_nop })
    else (f, ins)

-- The loop, from the last instruction to the first: `l` lists the last one first.
unfoldable pub fix_loop : Fix → List Instruction → ℕ × List Instruction
unfolding fix_step
fix_loop f [] = (f.seqsize, [])
fix_loop f (ins ∷ l) =
    let (f', ins') = fix_step f ins in let (seqsize, l') = fix_loop f' l in (seqsize, ins' ∷ l')

unfoldable pub value_assign_fix : M ℕ
unfolding fix_loop
value_assign_fix ps =
    let (seqsize, l) =
      fix_loop (record { inner = false; si = 0; seqsize = 0 }) (reverse ps.lval_check.bc_cache) in
    done seqsize (record ps { lval_check = record ps.lval_check { bc_cache = reverse l } })

-- A round of the loop of `loop_control_replace`, at the position `i` of `size`.
unfoldable pub replace_step : ℕ → ℕ → ℕ → Instruction → Instruction
replace_step depth size i ins =
    if ins.code == bc_ph_break && ins.extra == depth + 1
    then record ins { code = bc_jmp; extra = (size - i) % 65536 }
    else if ins.code == bc_ph_continue && ins.extra == depth + 1
    then record ins { code = bc_jmp; extra = (size - i - 1) % 65536 }
    else ins

unfoldable pub replace_from : ℕ → ℕ → ℕ → ℕ → List Instruction → List Instruction
unfolding replace_step
replace_from depth size start i [] = []
replace_from depth size start i (ins ∷ l) =
    (if leb start i then replace_step depth size i ins else ins)
    ∷ replace_from depth size start (i + 1) l

unfoldable pub loop_control_replace : ℕ → M (Unit {0})
unfolding replace_from
loop_control_replace start_pos =
    modify λ ps. with_opcodes (λ l. replace_from ps.info.loop_depth (length l) start_pos 0 l) ps

unfoldable pub func_push : M (Unit {0})
func_push = modify λ ps. record ps {
  info = record {
    loop_depth = 0;
    code = record { const_val = []; closure = []; opcodes = []; lnotab = [] };
  };
  prev = ps.info ∷ ps.prev;
}

-- `func_pop`, of an info that is not the first one; the code object that it returns is the last
-- finished one.
abbrev pub pop_info : List ParserInfo → M Const
pop_info [] ps = undefined
pop_info (info ∷ prev) ps =
    done (code (length ps.finished))
      (record ps { info = info; prev = prev; finished = ps.finished ++ ps.info.code ∷ [] })

unfoldable pub func_pop : M Const
func_pop ps = pop_info ps.prev ps

unfoldable pub sload_none : M (Unit {0})
unfolding write_ins
sload_none = write_ins bc_loadnone 0 0

-- `same` is the equality of objects of one type, by which constants and names are compared.
module _ (same : Const → Const → Bool) where
  abbrev pub index_from : ℕ → List Const → Const → Option ℕ
  index_from i [] obj = none
  index_from i (c ∷ consts) obj =
      let rest = index_from (i + 1) consts obj in if same c obj then some i else rest

  -- `pylt_obj_list_index_strict`; `none` is -1.
  unfoldable pub list_index_strict : List Const → Const → Option ℕ
  list_index_strict consts obj = index_from 0 consts obj

  abbrev pub store_found : Const → Option ℕ → M ℕ
  store_found obj (some i) ps = done i ps
  store_found obj none ps =
      done (length ps.info.code.const_val)
        (with_code (λ c. record c { const_val = c.const_val ++ obj ∷ [] }) ps)

  unfoldable pub store_const : Const → M ℕ
  unfolding list_index_strict
  store_const obj ps = store_found obj (list_index_strict ps.info.code.const_val obj) ps

  unfoldable pub sload_const : Const → M (Unit {0})
  unfolding write_ins store_const
  sload_const none_obj = write_ins bc_loadnone 0 0
  sload_const obj = do i ← store_const obj; write_ins bc_loadconst 0 i

  abbrev has_name : List Const → Const → Bool
  has_name [] name = false
  has_name (c ∷ names) name = same c name || has_name names name

  -- A round of `func_scope_check` on the sets of stored names and of upvalues; `none` is a read
  -- outside the constants.
  abbrev add_name : List Const → Const → List Const
  add_name names name = if has_name names name then names else name ∷ names

  abbrev scope_at :
      Instruction → Option Const → List Const × List Const → Option (List Const × List Const)
  scope_at ins none sets = none
  scope_at ins (some name) sets =
      if ins.code == bc_load_val || ins.code == bc_load_val_
      then (if has_name sets.0 name then some sets else some (sets.0, add_name sets.1 name))
      else some (add_name sets.0 name, sets.1)

  unfoldable pub scope_step :
      List Const → Instruction → List Const × List Const → Option (List Const × List Const)
  scope_step consts ins sets =
      if ins.code == bc_load_val
        || ins.code == bc_load_val_
        || (ins.code == bc_set_val || ins.code == bc_set_valx)
      then scope_at ins (get_elem? consts ins.extra) sets
      else some sets

  unfoldable pub scope_loop :
      List Const → List Instruction → Option (List Const × List Const) → Option (List Const)
  unfolding scope_step
  scope_loop consts l none = none
  scope_loop consts [] (some sets) = some sets.1
  scope_loop consts (ins ∷ l) (some sets) = scope_loop consts l (scope_step consts ins sets)

  abbrev pub store_args : List ℕ → List Const → List Const
  store_args [] names = names
  store_args (a ∷ args) names = store_args args (add_name names (value a))

  abbrev pub close : Option (List Const) → M (Unit {0})
  close none ps = undefined
  close (some upvalue) ps = done tt (with_code (λ c. record c { closure = upvalue }) ps)

  unfoldable pub func_scope_check : List ℕ → M (Unit {0})
  unfolding scope_loop
  func_scope_check args ps =
      close (scope_loop ps.info.code.const_val ps.info.code.opcodes (some (store_args args [], [])))
        ps
