-- ===== src/Vm/Call.antt =====
-- The binding of arguments to parameters in `func_call_check` of vm.c, behind the search for what is
-- called. The stack is the part of it above the object that is called, its bottom first.
pub mod Matched
pub mod Binds
pub mod Plain
pub mod Whole
use python_lite.Base.{
  ℕ, zero, suc, ◌+◌, ◌-◌, Bool, true, false, ◌&&◌, List, [], ◌∷◌, ◌++◌, Option, none, some, ltb,
  ◌==◌, if◌then◌else◌, length, map,
}
use python_lite.Base.Int.{ℤ, pos, negsuc}
use python_lite.Types.Function.{
  Default, undefined_param, args_param, kwargs_param, value_param, Keywords, FunctionInfo, get_item,
}
use python_lite.Parser.Emit.{take, drop}

-- A parameter, with its name.
pub record Param (V : Type 0) : Type 0 where
  pub name : ℕ
  pub defobj : Default V

-- What stands on the stack: an object that was given, the tuple of `*args`, or the dict of `**kwargs`.
pub data Arg (V : Type 0) : Type 0 where
  given : V → Arg V
  packed : List V → Arg V
  keywords : Keywords V → Arg V

-- The variables of the loop.
pub record Binding (V : Type 0) : Type 0 where
  pub stack : List (Arg V)
  pub args_i : ℕ
  pub params_num : ℕ
  pub kwargs : Option (Keywords V)

-- The error codes 1, with the parameter that is missing, and 2.
pub data Bound (V : Type 0) : Type 0 where
  bound : List (Arg V) → Bound V
  missing : ℕ → Bound V
  too_many : Bound V

-- `params_num > info->minimal`
abbrev exceeds : ℕ → ℤ → Bool
exceeds num (pos minimal) = ltb minimal num
exceeds num (negsuc minimal) = true

module _ {V : Type 0} where
  abbrev pub delete_item : ℕ → Keywords V → Keywords V
  delete_item name [] = []
  delete_item name ((k, v) ∷ kw) = if k == name then kw else (k, v) ∷ delete_item name kw

  -- `kwargs` may be NULL.
  abbrev pub find_kwarg : ℕ → Option (Keywords V) → Option V
  find_kwarg name none = none
  find_kwarg name (some kw) = get_item name kw

  abbrev pub pop_kwarg : ℕ → Option (Keywords V) → Option (Keywords V)
  pop_kwarg name none = none
  pop_kwarg name (some kw) = some (delete_item name kw)

  abbrev pub all_kwargs : Option (Keywords V) → Keywords V
  all_kwargs none = []
  all_kwargs (some kw) = kw

  abbrev push : Arg V → Binding V → Binding V
  push x b = record b { stack = b.stack ++ x ∷ [] }

  -- A parameter that needs an argument takes it from the keyword arguments.
  abbrev pub need_kwarg : ℕ → Option V → Binding V → Option (Binding V)
  need_kwarg name none b = none
  need_kwarg name (some v) b = some (record (push (given v) b) { kwargs = pop_kwarg name b.kwargs })

  abbrev pub default_kwarg : Option V → V → Binding V → Binding V
  default_kwarg none d b = push (given d) b
  default_kwarg (some v) d b = push (given v) b

  abbrev pub values : List (Arg V) → List V
  values [] = []
  values (given v ∷ l) = v ∷ values l
  values (packed vs ∷ l) = values l
  values (keywords kw ∷ l) = values l

  -- `*args`: the arguments from `args_i` on become a tuple.
  abbrev pub pack : Binding V → Binding V
  pack b = record b {
    stack =
        take (length b.stack - (b.params_num - b.args_i)) b.stack
        ++ packed (values (take (b.params_num - b.args_i) (drop b.args_i b.stack))) ∷ [];
    params_num = b.args_i;
  }

  -- A round of the loop; `none` is the error that the parameter is missing.
  unfoldable pub bind_step : ℕ → Default V → Binding V → Option (Binding V)
  bind_step name undefined_param b =
      if b.args_i == b.params_num
      then need_kwarg name (find_kwarg name b.kwargs) b
      else some (record b { args_i = b.args_i + 1 })
  bind_step name args_param b =
      if b.args_i == b.params_num then some (push (packed []) b) else some (pack b)
  bind_step name kwargs_param b = some (push (keywords (all_kwargs b.kwargs)) b)
  bind_step name (value_param d) b =
      if b.args_i == b.params_num
      then some (default_kwarg (find_kwarg name b.kwargs) d b)
      else some (record b { args_i = b.args_i + 1 })

  -- The loop over the parameters, from number `i` on.
  unfoldable pub bind_loop : ℕ → List (Param V) → Binding V → Bound V
  bind_loop i [] b = if b.args_i == b.params_num then bound b.stack else too_many
  bind_loop i (p ∷ params) b = elim (bind_step p.name p.defobj b) [
    | none ↦ missing i
    | some b' ↦ bind_loop (i + 1) params b'
  ]

  -- The arguments for parameters with defaults or for a call with keyword arguments.
  unfoldable pub bind_args : List (Param V) → List V → Option (Keywords V) → Bound V
  bind_args params args kwargs =
      bind_loop 0 params
        (record { stack = map given args; args_i = 0; params_num = length args; kwargs = kwargs })

  -- The case of neither, for a function with `num` parameters.
  unfoldable pub bind_simple : ℕ → ℤ → List V → Bound V
  bind_simple num minimal args =
      if ltb (length args) num
      then missing (length args)
      else if exceeds (length args) minimal
      then too_many
      else bound (map given args)

  -- Without `info->defaults` every parameter needs an argument.
  abbrev pub undefined_params : List ℕ → List (Param V)
  undefined_params [] = []
  undefined_params (name ∷ params) =
      record { name = name; defobj = undefined_param } ∷ undefined_params params

  abbrev pub with_defobjs : List ℕ → List (Default V) → List (Param V)
  with_defobjs [] defaults = []
  with_defobjs (name ∷ params) [] = []
  with_defobjs (name ∷ params) (d ∷ defaults) =
      record { name = name; defobj = d } ∷ with_defobjs params defaults

  abbrev bind_kind :
      FunctionInfo V → Option (List (Default V)) → List V → Option (Keywords V) → Bound V
  bind_kind info none args none = bind_simple info.length info.minimal args
  bind_kind info none args (some kwargs) =
      bind_args (undefined_params info.params) args (some kwargs)
  bind_kind info (some defaults) args kwargs =
      bind_args (with_defobjs info.params defaults) args kwargs

  -- The arguments for a function.
  unfoldable pub bind_call : FunctionInfo V → List V → Option (Keywords V) → Bound V
  bind_call info args kwargs = bind_kind info info.defaults args kwargs
