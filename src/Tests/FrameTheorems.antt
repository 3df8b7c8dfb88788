-- ===== src/Tests/FrameTheorems.antt =====
-- The frames of the machine at concrete calls.
use python_lite.Base.{ℕ, ◌≡◌, refl, true, false, [], ◌∷◌, none, some}
use python_lite.Vm.Frames.{
  Frame, halted, resumed, vm_push_code, vm_push_func, vm_load_code, vm_pop_frame, ret,
}
use python_lite.Vm.Frames.Nesting.{
  Trace, ends, stays, sets_up, calls, Around, Called, context, run-calls,
}

abbrev file_frame : Frame ℕ
file_frame = record { locals = []; func = none; code = 1; ip_saved = none; halt_when_ret = false }

abbrev class_frame : Frame ℕ
class_frame = record file_frame { halt_when_ret = true }

-- An array for two frames, at 100.
abbrev small : Around
small = record { frames_at = 100; frames_max = 2; blocks = [] }

-- The place 4 is kept while the frame of function 7 is on top.
pushed :
    vm_push_func 300 7 2 (context small 4 (file_frame ∷ []))
    ≡ context small 0 (
        record { locals = []; func = some 7; code = 2; ip_saved = none; halt_when_ret = false }
        ∷ record file_frame { ip_saved = some 4 }
        ∷ [])
unfolding vm_push_func
pushed = refl

-- The array of frames is full: it moves to 300.
array_moves :
    vm_push_code 300 2 (context small 4 (file_frame ∷ file_frame ∷ []))
    ≡ context
        (record { frames_at = 300; frames_max = 4; blocks = [] })
        0
        (record file_frame { code = 2 } ∷ record file_frame { ip_saved = some 4 } ∷ file_frame ∷ [])
unfolding vm_push_code
array_moves = refl

loaded :
    vm_load_code 3 (context small 4 (file_frame ∷ []))
    ≡ context small 0 (record file_frame { code = 3 } ∷ [])
unfolding vm_load_code
loaded = refl

popped_back :
    vm_pop_frame (vm_push_code 300 2 (context small 4 (file_frame ∷ [])))
    ≡ resumed (context small 4 (record file_frame { ip_saved = some 4 } ∷ []))
unfolding vm_pop_frame vm_push_code
popped_back = refl

-- The return of `__new__` takes its frame off and leaves the place in its code.
new_returns :
    ret (context small 9 (class_frame ∷ record file_frame { ip_saved = some 4 } ∷ []))
    ≡ halted (context small 9 (record file_frame { ip_saved = some 4 } ∷ []))
unfolding ret
new_returns = refl

-- The function returns out of a `try`, and calls another one before.
abbrev inner : Trace ℕ
inner = stays 3 ((0, 5) ∷ []) (calls 300 8 6 (stays 2 [] ends) (sets_up 20 9 (stays 4 [] ends)))

run-calls_example : Called 300 7 2 inner (stays 6 [] ends) small 5 file_frame []
run-calls_example = run-calls 300 7 2 inner (stays 6 [] ends) small 5 file_frame []
