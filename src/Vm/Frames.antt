-- ===== src/Vm/Frames.antt =====
-- The frames of the virtual machine: `pylt_vm_push_code`, `pylt_vm_push_func`, `pylt_vm_load_code`,
-- `pylt_vm_pop_frame` and the case of `BC_RET` in `pylt_vm_run`. Code, which is there, and functions are numbers, and
-- the places of instructions are those in the code of the frame. Where `krealloc` puts a larger array
-- is an argument. The objects that the collector is
-- told of are left out.
pub mod Nesting
use python_lite.Base.{
  ℕ, ◌*◌, ◌==◌, length, ◌≡◌, refl, ap, ◌∙◌, Bool, true, false, List, [], ◌∷◌, Option, none, some,
  if◌then◌else◌,
}
use python_lite.Vm.Except.{Context}
use python_lite.Types.Function.{Keywords}

-- `ip_saved` is not set before the frame calls.
pub record Frame (V : Type 0) : Type 0 where
  pub locals : Keywords V
  pub func : Option ℕ
  pub code : ℕ
  pub ip_saved : Option ℕ
  pub halt_when_ret : Bool

-- What `BC_RET` does: `pylt_vm_run` returns, or it goes on in the frame below; `no_frame` is a read
-- of a frame or a place that is not there.
pub data Returned (V : Type 0) : Type 0 where
  halted : Context (Frame V) → Returned V
  resumed : Context (Frame V) → Returned V
  no_frame : Returned V

module _ {V : Type 0} where
  -- The top frame keeps the place of the next instruction.
  abbrev pub save_ip : ℕ → List (Frame V) → List (Frame V)
  save_ip ip [] = []
  save_ip ip (f ∷ frames) = record f { ip_saved = some ip } ∷ frames

  -- `kv_pushp` makes room in a full array, which moves to the address `moved`.
  abbrev pub make_room : ℕ → Context (Frame V) → Context (Frame V)
  make_room moved ctx =
      if length ctx.frames == ctx.frames_max
      then record ctx {
        frames_at = moved;
        frames_max = if ctx.frames_max == 0 then 2 else ctx.frames_max * 2;
      }
      else ctx

  abbrev pub push_frame : ℕ → Option ℕ → ℕ → Context (Frame V) → Context (Frame V)
  push_frame moved func code ctx = record (make_room moved ctx) {
    ip = 0;
    frames =
        record { locals = []; func = func; code = code; ip_saved = none; halt_when_ret = false }
        ∷ save_ip ctx.ip ctx.frames;
    expt_stack = ctx.expt_stack;
  }

  unfoldable pub vm_push_code : ℕ → ℕ → Context (Frame V) → Context (Frame V)
  vm_push_code moved code ctx = push_frame moved none code ctx

  -- A function with its code.
  unfoldable pub vm_push_func : ℕ → ℕ → ℕ → Context (Frame V) → Context (Frame V)
  vm_push_func moved func code ctx = push_frame moved (some func) code ctx

  abbrev pub loaded_frame : ℕ → List (Frame V) → List (Frame V)
  loaded_frame code [] = []
  loaded_frame code (f ∷ frames) =
      record f { func = none; code = code; halt_when_ret = false } ∷ frames

  unfoldable pub vm_load_code : ℕ → Context (Frame V) → Context (Frame V)
  vm_load_code code ctx = record ctx { ip = 0; frames = loaded_frame code ctx.frames }

  abbrev pub resume_at : Option ℕ → Context (Frame V) → Returned V
  resume_at none ctx = no_frame
  resume_at (some ip) ctx = resumed (record ctx { ip = ip })

  abbrev pub resume_top : List (Frame V) → Context (Frame V) → Returned V
  resume_top [] ctx = no_frame
  resume_top (f ∷ frames) ctx = resume_at f.ip_saved (record ctx { frames = f ∷ frames })

  abbrev pub popped : List (Frame V) → Context (Frame V) → Returned V
  popped [] ctx = no_frame
  popped (f ∷ frames) ctx = resume_top frames ctx

  unfoldable pub vm_pop_frame : Context (Frame V) → Returned V
  vm_pop_frame ctx = popped ctx.frames ctx

  abbrev pub return_from : List (Frame V) → Context (Frame V) → Returned V
  return_from [] ctx = no_frame
  return_from (f ∷ frames) ctx =
      if f.halt_when_ret then halted (record ctx { frames = frames }) else vm_pop_frame ctx

  -- `BC_RET`, behind the push of the value.
  unfoldable pub ret : Context (Frame V) → Returned V
  ret ctx = return_from ctx.frames ctx
