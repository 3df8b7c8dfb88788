-- ===== src/Vm/Call/Whole.antt =====
-- The call of a function that `pylt_obj_func_new_ex` has made.
use python_lite.Base.{
  ℕ, ◌≡◌, refl, suc, ap, sym, ◌∙◌, Bool, true, false, List, [], ◌∷◌, Option, none, some, length,
  if◌then◌else◌,
}
use python_lite.Base.Int.{ℤ, pos, negsuc}
use python_lite.Types.Function.{
  undefined_param, args_param, kwargs_param, Keywords, is_name, find_default, default_value,
  param_default, default_loop, func_new_ex,
}
use python_lite.Vm.Call.{Param, bind_args, bind_simple, undefined_params, with_defobjs, bind_call}
use python_lite.Vm.Call.Binds.{bind_args-matched}
use python_lite.Vm.Call.Matched.{matched, KwargsLast}
use python_lite.Vm.Call.Plain.{bind_simple-bind_args, Required}

-- The name of `**kwargs` is that of no parameter but the last.
abbrev pub NamedLast : Option ℕ → List ℕ → Type 0
NamedLast kwargs [] = Unit {0}
NamedLast kwargs (name ∷ params) =
    (is_name name kwargs ≡ true → params ≡ []) × NamedLast kwargs params

module _ {V : Type 0} where
  -- The parameters with their defaults.
  abbrev pub described : Option (Keywords V) → Option ℕ → Option ℕ → List ℕ → List (Param V)
  described defaults args kwargs [] = []
  described defaults args kwargs (name ∷ params) =
      record { name = name; defobj = param_default defaults args kwargs name }
      ∷ described defaults args kwargs params

module _ (V : Type 0) where
  undefined_params-described :
      (params : List ℕ) → undefined_params params ≡ described {V = V} none none none params
  undefined_params-described [] = refl
  undefined_params-described (name ∷ params) =
      ap (λ l. record { name = name; defobj = undefined_param } ∷ l)
        (undefined_params-described params)

  described-Required : (params : List ℕ) → Required {V = V} (described none none none params)
  described-Required [] = tt
  described-Required (name ∷ params) = (refl, described-Required params)

  length-described :
      (params : List ℕ) → length (described {V = V} none none none params) ≡ length params
  length-described [] = refl
  length-described (name ∷ params) = ap suc (length-described params)

module _ {V : Type 0} where
  with_defobjs-default_loop :
      (defaults : Option (Keywords V)) (args kwargs : Option ℕ) (params : List ℕ) (i : ℕ)
      (minimal : ℤ)
      → with_defobjs params (default_loop defaults args kwargs i minimal params).1
        ≡ described defaults args kwargs params
  with_defobjs-default_loop defaults args kwargs [] i minimal = refl
  with_defobjs-default_loop defaults args kwargs (name ∷ params) i minimal =
      ap (λ l. record { name = name; defobj = param_default defaults args kwargs name } ∷ l)
        (with_defobjs-default_loop defaults args kwargs params _ _)

  kwargs_chosen :
      (a b : Bool) (o : Option V)
      → (if a then args_param else if b then kwargs_param else default_value o) ≡ kwargs_param
      → b ≡ true
  kwargs_chosen true b o e = cc
  kwargs_chosen false true o e = refl
  kwargs_chosen false false none e = cc
  kwargs_chosen false false (some v) e = cc

  kwargs_named :
      (defaults : Option (Keywords V)) (args kwargs : Option ℕ) (name : ℕ)
      → param_default defaults args kwargs name ≡ kwargs_param
      → is_name name kwargs ≡ true
  kwargs_named defaults args kwargs name e =
      kwargs_chosen (is_name name args) (is_name name kwargs) (find_default name defaults) e

  described_empty :
      (defaults : Option (Keywords V)) (args kwargs : Option ℕ) {params : List ℕ}
      → params ≡ []
      → described defaults args kwargs params ≡ []
  described_empty defaults args kwargs e = ap (described defaults args kwargs) e

  described-KwargsLast :
      (defaults : Option (Keywords V)) (args kwargs : Option ℕ) (params : List ℕ)
      → NamedLast kwargs params
      → KwargsLast (described defaults args kwargs params)
  described-KwargsLast defaults args kwargs [] last = tt
  described-KwargsLast defaults args kwargs (name ∷ params) last = (
    (λ e. described_empty defaults args kwargs (last.0 (kwargs_named defaults args kwargs name e))),
    described-KwargsLast defaults args kwargs params last.1,
  )

  -- With `info->defaults`.
  bound_described :
      (defaults : Option (Keywords V)) (args kwargs : Option ℕ) (params : List ℕ) (xs : List V)
      (kw : Option (Keywords V))
      → NamedLast kwargs params
      → bind_args
          (with_defobjs params (default_loop defaults args kwargs 0 (negsuc 0) params).1)
          xs
          kw
        ≡ matched 0 (described defaults args kwargs params) xs kw
  bound_described defaults args kwargs params xs kw last =
      ap (λ l. bind_args l xs kw)
        (with_defobjs-default_loop defaults args kwargs params 0 (negsuc 0))
      ∙ bind_args-matched _ xs kw (described-KwargsLast defaults args kwargs params last)

  -- For a function made from its parameters' names, its defaults, and the names of `*args` and
  -- `**kwargs`, where the latter is that of no parameter but the last, and for any arguments: what
  -- its call leaves on the stack, or its error, is what the parameters take one after the other.
  pub bind_call-func_new_ex :
      (params : List ℕ) (defaults : Option (Keywords V)) (args kwargs : Option ℕ) (xs : List V)
      (kw : Option (Keywords V))
      → NamedLast kwargs params
      → bind_call (func_new_ex params defaults args kwargs) xs kw
        ≡ matched 0 (described defaults args kwargs params) xs kw
  unfolding bind_call func_new_ex
  bind_call-func_new_ex params none none none xs none last =
      ap (λ n. bind_simple n (pos n) xs) (sym (length-described V params))
      ∙ bind_simple-bind_args (described none none none params) xs (described-Required V params)
      ∙ bind_args-matched _ xs none (described-KwargsLast none none none params last)
  bind_call-func_new_ex params none none none xs (some kw) last =
      ap (λ l. bind_args l xs (some kw)) (undefined_params-described V params)
      ∙ bind_args-matched _ xs (some kw) (described-KwargsLast none none none params last)
  bind_call-func_new_ex params none none (some k) xs kw last =
      bound_described none none (some k) params xs kw last
  bind_call-func_new_ex params none (some a) kwargs xs kw last =
      bound_described none (some a) kwargs params xs kw last
  bind_call-func_new_ex params (some d) args kwargs xs kw last =
      bound_described (some d) args kwargs params xs kw last
