-- ===== src/Tests/CallTheorems.antt =====
-- The binding of arguments at concrete calls.
use python_lite.Base.{ℕ, ◌≡◌, refl, List, [], ◌∷◌, none, some}
use python_lite.Base.Int.{pos}
use python_lite.Types.Function.{undefined_param, args_param, kwargs_param, value_param, func_new_ex}
use python_lite.Vm.Call.{
  Param, given, packed, keywords, bound, missing, bind_loop, bind_step, bind_args, bind_simple,
  bind_call,
}
use python_lite.Vm.Call.Binds.{bind_args-matched}
use python_lite.Vm.Call.Matched.{matched, KwargsLast}
use python_lite.Vm.Call.Whole.{bind_call-func_new_ex, described}
use python_lite.Vm.Call.Plain.{bind_simple-bind_args}

-- def f(p0, p1=7, *p2, **p3)
abbrev params : List (Param ℕ)
params =
    record { name = 0; defobj = undefined_param }
    ∷ record { name = 1; defobj = value_param 7 }
    ∷ record { name = 2; defobj = args_param }
    ∷ record { name = 3; defobj = kwargs_param }
    ∷ []

-- f(10, 11, 12, 13)
positional :
    bind_args params (10 ∷ 11 ∷ 12 ∷ 13 ∷ []) none
    ≡ bound (given 10 ∷ given 11 ∷ packed (12 ∷ 13 ∷ []) ∷ keywords [] ∷ [])
unfolding bind_args bind_loop bind_step
positional = refl

-- f(p1=5, p0=4, p9=6)
by_keyword :
    bind_args params [] (some ((1, 5) ∷ (0, 4) ∷ (9, 6) ∷ []))
    ≡ bound (given 4 ∷ given 5 ∷ packed [] ∷ keywords ((1, 5) ∷ (9, 6) ∷ []) ∷ [])
unfolding bind_args bind_loop bind_step
by_keyword = refl

-- f(p1=5)
without_p0 : bind_args params [] (some ((1, 5) ∷ [])) ≡ missing 0
unfolding bind_args bind_loop bind_step
without_p0 = refl

simple_runs : bind_simple {V = ℕ} 2 (pos 2) (1 ∷ 2 ∷ []) ≡ bound (given 1 ∷ given 2 ∷ [])
unfolding bind_simple
simple_runs = refl

-- def f(p0, p1=7) and def f(p0, p1)
func_new_runs :
    (func_new_ex {V = ℕ} (0 ∷ 1 ∷ []) (some ((1, 7) ∷ [])) none none ≡ record {
      length = 2;
      minimal = pos 1;
      params = 0 ∷ 1 ∷ [];
      defaults = some (undefined_param ∷ value_param 7 ∷ []);
    })
    × (bind_call (func_new_ex {V = ℕ} (0 ∷ 1 ∷ []) none none none) (8 ∷ []) none ≡ missing 1)
unfolding func_new_ex bind_call bind_simple
func_new_runs = (refl, refl)

params-KwargsLast : KwargsLast params
params-KwargsLast = ((λ e. cc), ((λ e. cc), ((λ e. cc), ((λ e. refl), tt))))

bind_args-matched_example :
    bind_args params (10 ∷ []) (some ((1, 5) ∷ []))
    ≡ matched 0 params (10 ∷ []) (some ((1, 5) ∷ []))
bind_args-matched_example =
    bind_args-matched params (10 ∷ []) (some ((1, 5) ∷ [])) params-KwargsLast

bind_simple-bind_args_example :
    bind_simple {V = ℕ} 1 (pos 1) (10 ∷ 11 ∷ [])
    ≡ bind_args (record { name = 0; defobj = undefined_param } ∷ []) (10 ∷ 11 ∷ []) none
bind_simple-bind_args_example =
    bind_simple-bind_args (record { name = 0; defobj = undefined_param } ∷ []) (10 ∷ 11 ∷ [])
      (refl, tt)

-- def f(p0, p1=7, *p2, **p3), called as f(10, p1=5)
bind_call-func_new_ex_example :
    bind_call {V = ℕ}
      (func_new_ex (0 ∷ 1 ∷ 2 ∷ 3 ∷ []) (some ((1, 7) ∷ [])) (some 2) (some 3))
      (10 ∷ [])
      (some ((1, 5) ∷ []))
    ≡ matched 0
        (described (some ((1, 7) ∷ [])) (some 2) (some 3) (0 ∷ 1 ∷ 2 ∷ 3 ∷ []))
        (10 ∷ [])
        (some ((1, 5) ∷ []))
bind_call-func_new_ex_example =
    bind_call-func_new_ex {V = ℕ} (0 ∷ 1 ∷ 2 ∷ 3 ∷ []) (some ((1, 7) ∷ [])) (some 2) (some 3)
      (10 ∷ []) (some ((1, 5) ∷ [])) ((λ e. cc), ((λ e. cc), ((λ e. cc), ((λ e. refl), tt))))
