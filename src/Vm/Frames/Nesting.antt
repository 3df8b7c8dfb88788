-- ===== src/Vm/Frames/Nesting.antt =====
-- Calls that nest.
use python_lite.Base.{
  ℕ, ◌+◌, ◌-◌, ◌*◌, ◌==◌, length, Bool-cases, inl, inr, ◌≡◌, refl, ap, ◌∙◌, false, List, [], ◌∷◌,
  none, some, if◌then◌else◌,
}
use python_lite.Vm.Except.{Context, ExceptInfo, except_setup, except_pop}
use python_lite.Parser.Emit.{drop}
use python_lite.Types.Function.{Keywords}
use python_lite.Vm.Frames.{
  Frame, Returned, halted, resumed, no_frame, vm_push_func, vm_pop_frame, ret,
}

-- What the machine does in a frame until its `BC_RET`, where no error is raised: instructions that
-- set the place and the variables of the frame, that set up an exception block, or that take some
-- off; and calls of a function with its code, with where a larger array of frames is put and with
-- what the function does.
pub data Trace (V : Type 0) : Type 0 where
  ends : Trace V
  stays : ℕ → Keywords V → Trace V → Trace V
  sets_up : ℕ → ℕ → Trace V → Trace V
  takes_off : ℕ → Trace V → Trace V
  calls : ℕ → ℕ → ℕ → Trace V → Trace V → Trace V

-- The address and the capacity of the array of frames, and the exception blocks.
pub record Around : Type 0 where
  pub frames_at : ℕ
  pub frames_max : ℕ
  pub blocks : List ExceptInfo

module _ {V : Type 0} where
  abbrev set_locals : Keywords V → List (Frame V) → List (Frame V)
  set_locals locals [] = []
  set_locals locals (f ∷ frames) = record f { locals = locals } ∷ frames

  abbrev pub set_top : ℕ → Keywords V → Context (Frame V) → Context (Frame V)
  set_top ip locals ctx = record ctx { ip = ip; frames = set_locals locals ctx.frames }

  abbrev and_then : Returned V → (Context (Frame V) → Returned V) → Returned V
  and_then (halted ctx) k = halted ctx
  and_then (resumed ctx) k = k ctx
  and_then no_frame k = no_frame

  -- The context at the end of the trace.
  unfoldable pub run : Trace V → Context (Frame V) → Returned V
  run ends ctx = resumed ctx
  run (stays ip locals t) ctx = run t (set_top ip locals ctx)
  run (sets_up typecode ip t) ctx = run t (except_setup typecode ip ctx)
  run (takes_off num t) ctx = run t (except_pop num ctx)
  run (calls moved func code body t) ctx =
      and_then (run body (vm_push_func moved func code ctx)) (λ c. and_then (ret c) (run t))

  abbrev pub context : Around → ℕ → List (Frame V) → Context (Frame V)
  context a ip frames = record {
    ip = ip;
    frames = frames;
    frames_at = a.frames_at;
    frames_max = a.frames_max;
    expt_stack = a.blocks;
  }

  -- A trace ends, in the frame in which it began and with the same frames below.
  Stays : Trace V → Type 0
  Stays t =
      (a : Around) (ip : ℕ) (f : Frame V) (frames : List (Frame V))
      → f.halt_when_ret ≡ false
      → (a' : Around) × (ip' : ℕ) × (f' : Frame V) × (run t (context a ip (f ∷ frames))
          ≡ resumed (context a' ip' (f' ∷ frames)))
        × (f'.halt_when_ret ≡ false)

  ret-lower :
      (a : Around) (ip saved : ℕ) (g f : Frame V) (frames : List (Frame V))
      → g.halt_when_ret ≡ false
      → ret (context a ip (g ∷ record f { ip_saved = some saved } ∷ frames))
        ≡ resumed (context a saved (record f { ip_saved = some saved } ∷ frames))
  unfolding ret vm_pop_frame
  ret-lower a ip saved g f frames e = rw e

  abbrev callee : ℕ → ℕ → Frame V
  callee func code = record {
    locals = [];
    func = some func;
    code = code;
    ip_saved = none;
    halt_when_ret = false;
  }

  pushed :
      (moved func code ip : ℕ) (a : Around) (f : Frame V) (frames : List (Frame V))
      → (b : Around) × (vm_push_func moved func code (context a ip (f ∷ frames))
          ≡ context b 0 (callee func code ∷ record f { ip_saved = some ip } ∷ frames))
        × (b.blocks ≡ a.blocks)
  unfolding vm_push_func
  pushed moved func code ip a f frames = elim (Bool-cases (length (f ∷ frames) == a.frames_max)) [
    | inl full ↦ (
      record {
        frames_at = moved;
        frames_max = if a.frames_max == 0 then 2 else a.frames_max * 2;
        blocks = a.blocks;
      },
      rw full refl,
      refl,
    )
    | inr room ↦ (a, rw room refl, refl)
  ]

  -- How a call goes: the function ends in its own frame on top of its caller's, and the caller goes
  -- on with `t`.
  pub record Called (moved func code : ℕ) (body t : Trace V) (a : Around) (ip : ℕ) (f : Frame V)
      (frames : List (Frame V)) : Type 0 where
    pub around : Around
    pub last_ip : ℕ
    pub top : Frame V
    pub returns :
        run body (vm_push_func moved func code (context a ip (f ∷ frames)))
        ≡ resumed (context around last_ip (top ∷ record f { ip_saved = some ip } ∷ frames))
    pub goes_on :
        run (calls moved func code body t) (context a ip (f ∷ frames))
        ≡ run t (context around ip (record f { ip_saved = some ip } ∷ frames))

  run-Called :
      (moved func code : ℕ) (body t : Trace V)
      → Stays body
      → (a : Around) (ip : ℕ) (f : Frame V) (frames : List (Frame V))
      → Called moved func code body t a ip f frames
  unfolding run Stays
  run-Called moved func code body t body_stays a ip f frames =
      let (b, e, kept) = pushed moved func code ip a f frames in
      let (a', ip', g, runs, halts) =
        body_stays b 0 (callee func code) (record f { ip_saved = some ip } ∷ frames) refl in
      let done = ap (run body) e ∙ runs in
      record {
        around = a';
        last_ip = ip';
        top = g;
        returns = done;
        goes_on =
            ap (λ r. and_then r (λ c. and_then (ret c) (run t))) done
            ∙ ap (λ r. and_then r (run t)) (ret-lower a' ip' ip g f frames halts);
      }

  run-Stays : (t : Trace V) → Stays t
  unfolding run Stays except_setup except_pop
  run-Stays ends a ip f frames e = (a, ip, f, refl, e)
  run-Stays (stays ip' locals t) a ip f frames e = run-Stays t a ip' _ frames e
  run-Stays (sets_up typecode at t) a ip f frames e =
      run-Stays t
        (record a {
          blocks =
              record {
                typecode = typecode;
                ip_catch = at;
                frame = a.frames_at + (length (f ∷ frames) - 1);
              }
              ∷ a.blocks;
        })
        ip f frames e
  run-Stays (takes_off num t) a ip f frames e =
      run-Stays t (record a { blocks = drop num a.blocks }) ip f frames e
  run-Stays (calls moved func code body t) a ip f frames e =
      let c = run-Called moved func code body t (run-Stays body) a ip f frames in
      let (a', ip', g, runs, halts) =
        run-Stays t c.around ip (record f { ip_saved = some ip }) frames e in
      (a', ip', g, c.goes_on ∙ runs, halts)

  -- A call of a function, whatever instructions and nested calls it runs up to its return, where no
  -- error is raised: it ends in its own frame, on top of its caller's; then the caller goes on
  -- behind the call in its own frame, in which only the place that is kept is set, with the frames
  -- below as they were. The array of frames may have moved. The exception blocks are those that the
  -- function has left: its return takes none off.
  pub run-calls :
      (moved func code : ℕ) (body t : Trace V) (a : Around) (ip : ℕ) (f : Frame V)
      (frames : List (Frame V))
      → Called moved func code body t a ip f frames
  run-calls moved func code body t = run-Called moved func code body t (run-Stays body)
