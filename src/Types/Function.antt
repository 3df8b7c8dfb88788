-- ===== src/Types/Function.antt =====
-- The parameters of a function, as types/extra/function.c makes them: names are numbers, as the strings
-- of names are compared by their addresses.
use python_lite.Base.{
  ℕ, zero, suc, ◌+◌, Bool, true, false, ◌||◌, List, [], ◌∷◌, Option, none, some, ◌==◌,
  if◌then◌else◌, length,
}
use python_lite.Base.Int.{ℤ, pos, negsuc}

-- An item of `info->defaults`: one of the three marks, or a value.
pub data Default (V : Type 0) : Type 0 where
  undefined_param : Default V
  args_param : Default V
  kwargs_param : Default V
  value_param : V → Default V

-- A dict whose keys are names.
abbrev pub Keywords : Type 0 → Type 0
Keywords V = List (ℕ × V)

-- What `PyLiteFunctionInfo` says of the parameters.
pub record FunctionInfo (V : Type 0) : Type 0 where
  pub length : ℕ
  pub minimal : ℤ
  pub params : List ℕ
  pub defaults : Option (List (Default V))

abbrev pub is_name : ℕ → Option ℕ → Bool
is_name name none = false
is_name name (some other) = name == other

abbrev is_set {ℓ} : {A : Type ℓ} → Option A → Bool
is_set none = false
is_set (some a) = true

-- `minimal` is -1 until the first parameter that needs no argument.
abbrev mark_minimal : ℕ → ℤ → ℤ
mark_minimal i (pos m) = pos m
mark_minimal i (negsuc zero) = pos i
mark_minimal i (negsuc (suc m)) = negsuc (suc m)

module _ {V : Type 0} where
  abbrev pub get_item : ℕ → Keywords V → Option V
  get_item name [] = none
  get_item name ((k, v) ∷ kw) = if k == name then some v else get_item name kw

  abbrev pub find_default : ℕ → Option (Keywords V) → Option V
  find_default name none = none
  find_default name (some defaults) = get_item name defaults

  abbrev pub default_value : Option V → Default V
  default_value none = undefined_param
  default_value (some v) = value_param v

  -- The item of `defvals` for a parameter.
  abbrev pub param_default : Option (Keywords V) → Option ℕ → Option ℕ → ℕ → Default V
  param_default defaults args kwargs name =
      if is_name name args
      then args_param
      else if is_name name kwargs
      then kwargs_param
      else default_value (find_default name defaults)

  abbrev minimal_at : ℕ → Default V → ℤ → ℤ
  minimal_at i undefined_param minimal = minimal
  minimal_at i args_param minimal = mark_minimal i minimal
  minimal_at i kwargs_param minimal = mark_minimal i minimal
  minimal_at i (value_param v) minimal = mark_minimal i minimal

  -- The loop over the parameters from number `i` on: `minimal`, and the items of `defvals`.
  abbrev pub default_loop :
      Option (Keywords V) → Option ℕ → Option ℕ → ℕ → ℤ → List ℕ → ℤ × List (Default V)
  default_loop defaults args kwargs i minimal [] = (minimal, [])
  default_loop defaults args kwargs i minimal (name ∷ params) =
      let defobj = param_default defaults args kwargs name in
      let rest = default_loop defaults args kwargs (i + 1) (minimal_at i defobj minimal) params in
      (rest.0, defobj ∷ rest.1)

  abbrev pub with_defaults : List ℕ → ℤ × List (Default V) → FunctionInfo V
  with_defaults params (minimal, defvals) = record {
    length = length params;
    minimal = minimal;
    params = params;
    defaults = some defvals;
  }

  -- The parameters' names, the dict of the defaults, the name of `*args` and that of `**kwargs`.
  unfoldable pub func_new_ex : List ℕ → Option (Keywords V) → Option ℕ → Option ℕ → FunctionInfo V
  func_new_ex params defaults args kwargs =
      if is_set defaults || is_set args || is_set kwargs
      then with_defaults params (default_loop defaults args kwargs 0 (negsuc 0) params)
      else record {
        length = length params;
        minimal = pos (length params);
        params = params;
        defaults = none;
      }
