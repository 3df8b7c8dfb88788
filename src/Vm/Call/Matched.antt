-- ===== src/Vm/Call/Matched.antt =====
-- Which parameter gets which argument, said without the stack.
use python_lite.Base.{ℕ, ◌+◌, ◌≡◌, List, [], ◌∷◌, Option, none, some}
use python_lite.Types.Function.{
  Default, undefined_param, args_param, kwargs_param, value_param, Keywords,
}
use python_lite.Vm.Call.{
  Param, Arg, given, packed, keywords, Bound, bound, missing, too_many, find_kwarg, pop_kwarg,
  all_kwargs,
}

module _ {V : Type 0} where
  -- A result with an argument in front.
  abbrev pub with_arg : Arg V → Bound V → Bound V
  with_arg x (bound l) = bound (x ∷ l)
  with_arg x (missing i) = missing i
  with_arg x too_many = too_many

  abbrev pub kwarg_or : Option V → V → V
  kwarg_or none d = d
  kwarg_or (some v) d = v

  -- A parameter without a positional argument and without a default.
  abbrev pub by_name : ℕ → Option V → Bound V → Bound V
  by_name i none rest = missing i
  by_name i (some v) rest = with_arg (given v) rest

  -- What the parameter number `i` takes, and then the others.
  abbrev pub serve :
      Default V
      → ℕ
      → ℕ
      → List V
      → Option (Keywords V)
      → (List V → Option (Keywords V) → Bound V)
      → Bound V
  serve undefined_param name i [] kw rest =
      by_name i (find_kwarg name kw) (rest [] (pop_kwarg name kw))
  serve undefined_param name i (x ∷ xs) kw rest = with_arg (given x) (rest xs kw)
  serve args_param name i xs kw rest = with_arg (packed xs) (rest [] kw)
  serve kwargs_param name i xs kw rest = with_arg (keywords (all_kwargs kw)) (rest xs kw)
  serve (value_param d) name i [] kw rest =
      with_arg (given (kwarg_or (find_kwarg name kw) d)) (rest [] kw)
  serve (value_param d) name i (x ∷ xs) kw rest = with_arg (given x) (rest xs kw)

  -- The arguments of the parameters from number `i` on, where `xs` are the positional arguments that
  -- are left: each takes the next of these; where there is none, its keyword argument or its
  -- default; `*args` takes all that are left, and `**kwargs` the keyword arguments that are left.
  abbrev pub matched : ℕ → List (Param V) → List V → Option (Keywords V) → Bound V
  matched i [] [] kw = bound []
  matched i [] (x ∷ xs) kw = too_many
  matched i (p ∷ ps) xs kw = serve p.defobj p.name i xs kw (matched (i + 1) ps)

  -- `**kwargs` is the last parameter.
  abbrev pub KwargsLast : List (Param V) → Type 0
  KwargsLast [] = Unit {0}
  KwargsLast (p ∷ ps) = (p.defobj ≡ kwargs_param → ps ≡ []) × KwargsLast ps
