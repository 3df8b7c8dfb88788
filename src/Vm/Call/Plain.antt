-- ===== src/Vm/Call/Plain.antt =====
-- The two ways in which `func_call_check` matches arguments, without defaults and with them, agree.
use python_lite.Base.{
  ℕ, suc, ◌+◌, ◌≡◌, refl, ap, sym, ◌∙◌, List, [], ◌∷◌, none, arith, ltb, if◌then◌else◌, length, map,
}
use python_lite.Base.Int.{pos}
use python_lite.Types.Function.{undefined_param}
use python_lite.Vm.Call.{Param, given, Bound, bound, missing, too_many, bind_args, bind_simple}
use python_lite.Vm.Call.Binds.{bind_args-matched}
use python_lite.Vm.Call.Matched.{matched, KwargsLast, with_arg}

module _ {V : Type 0} where
  -- Every parameter needs an argument.
  abbrev pub Required : List (Param V) → Type 0
  Required [] = Unit {0}
  Required (p ∷ ps) = (p.defobj ≡ undefined_param) × Required ps

  Required-KwargsLast : (ps : List (Param V)) → Required ps → KwargsLast ps
  Required-KwargsLast [] r = tt
  Required-KwargsLast (p ∷ ps) r = ((λ e. cc), Required-KwargsLast ps r.1)

  -- The test of the lengths, from parameter number `i` on.
  abbrev counted : ℕ → ℕ → List V → Bound V
  counted i n xs =
      if ltb (length xs) n
      then missing (i + length xs)
      else if ltb n (length xs)
      then too_many
      else bound (map given xs)

  counted-next :
      (i n : ℕ) (x : V) (xs : List V)
      → with_arg (given x) (counted (i + 1) n xs) ≡ counted i (suc n) (x ∷ xs)
  counted-next i n x xs = ground arith

  matched-counted :
      (i : ℕ) (ps : List (Param V)) (xs : List V)
      → Required ps
      → matched i ps xs none ≡ counted i (length ps) xs
  matched-counted i [] [] r = refl
  matched-counted i [] (x ∷ xs) r = ground arith
  matched-counted i (p ∷ ps) [] r = rw r.0 (ground arith)
  matched-counted i (p ∷ ps) (x ∷ xs) r = rw r.0 (
      ap (with_arg (given x)) (matched-counted (i + 1) ps xs r.1) ∙ counted-next i (length ps) x xs)

  -- For parameters that all need an argument, and no keyword arguments: the comparison of the numbers
  -- has the same result as the loop over the parameters, the same arguments on the stack or the same
  -- error with the same parameter missing.
  pub bind_simple-bind_args :
      (params : List (Param V)) (args : List V)
      → Required params
      → bind_simple (length params) (pos (length params)) args ≡ bind_args params args none
  unfolding bind_simple
  bind_simple-bind_args params args r =
      ap
        (λ m.
          if ltb (length args) (length params)
          then missing m
          else if ltb (length params) (length args)
          then too_many
          else bound (map given args))
        (sym zero_plus)
      ∙ sym (
          bind_args-matched params args none (Required-KwargsLast params r)
          ∙ matched-counted 0 params args r)
    where
      zero_plus : 0 + length args ≡ length args
      zero_plus = omega arith
