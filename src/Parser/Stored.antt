-- ===== src/Parser/Stored.antt =====
-- Constants: what the search of `store_const` finds, and what it stores where it finds none.
use mathlib.Core.Path.{subst}
use mathlib.Core.List.{append-nil}
use python_lite.Base.{
  ℕ, suc, ◌+◌, ◌≡◌, refl, sym, List, [], ◌∷◌, ◌++◌, Bool, true, Option, some, none, arith,
  get_elem?, length, if_cases,
}
use python_lite.Parser.State.{Const, ParserState, done, M}
use python_lite.Parser.Emit.{store_const, store_found, list_index_strict, index_from, with_code}
use python_lite.Parser.Compiles.{Holds}
use python_lite.Parser.Steps.{Stays}

module _ (same : Const → Const → Bool) where
  -- The place found, from the first place on.
  abbrev Found : ℕ → List Const → Const → Option ℕ → Type 0
  Found first consts obj none = Unit
  Found first consts obj (some i) = (j : ℕ) × (i ≡ first + j) × Holds same consts j obj

  Found-next :
      (first : ℕ) (c : Const) (consts : List Const) (obj : Const) (r : Option ℕ)
      → Found (first + 1) consts obj r
      → Found first (c ∷ consts) obj r
  Found-next first c consts obj none h = tt
  Found-next first c consts obj (some i) (j, e, h) = (suc j, omega (arith, e), h)

  index_from-Found :
      (first : ℕ) (consts : List Const) (obj : Const)
      → Found first consts obj (index_from same first consts obj)
  index_from-Found first [] obj = tt
  index_from-Found first (c ∷ consts) obj =
      if_cases (Found first (c ∷ consts) obj) (same c obj) (λ e. (0, omega arith, (c, refl, e)))
        (λ e. Found-next first c consts obj _ (index_from-Found (first + 1) consts obj))

  get_elem?-last :
      (consts : List Const) (obj : Const)
      → get_elem? (consts ++ obj ∷ []) (length consts) ≡ some obj
  get_elem?-last [] obj = refl
  get_elem?-last (c ∷ consts) obj = get_elem?-last consts obj

  -- A constant is stored: it stands at the place that is returned, and those before it stay.
  abbrev IsStored : Const → ParserState → M ℕ → Type 0
  IsStored obj s m =
      (i : ℕ) × (s' : ParserState) × (added : List Const) × (m s ≡ done i s')
      × Stays added [] s s'
      × Holds same (s'.info.code.const_val) i obj

  store_found-IsStored :
      (reflexive : (c : Const) → same c c ≡ true) (obj : Const) (s : ParserState) (r : Option ℕ)
      → Found 0 s.info.code.const_val obj r
      → IsStored obj s (store_found same obj r)
  store_found-IsStored reflexive obj s none h = (
    length s.info.code.const_val,
    with_code (λ c. record c { const_val = c.const_val ++ obj ∷ [] }) s,
    obj ∷ [],
    refl,
    record {
      token = refl;
      rest = refl;
      consts = refl;
      opcodes = sym (append-nil _);
      op_in = refl;
      tuple = refl;
      level = refl;
    },
    (obj, get_elem?-last s.info.code.const_val obj, reflexive obj),
  )
  store_found-IsStored reflexive obj s (some i) (j, e, h) = (
    i,
    s,
    [],
    refl,
    record {
      token = refl;
      rest = refl;
      consts = sym (append-nil _);
      opcodes = sym (append-nil _);
      op_in = refl;
      tuple = refl;
      level = refl;
    },
    let same_place : j ≡ i = omega (arith, e) in
        subst (λ k. Holds same s.info.code.const_val k obj) same_place h,
  )

  pub store_const-IsStored :
      (reflexive : (c : Const) → same c c ≡ true) (obj : Const) (s : ParserState)
      → IsStored obj s (store_const same obj)
  unfolding store_const
  store_const-IsStored reflexive obj s =
      store_found-IsStored reflexive obj s (list_index_strict same s.info.code.const_val obj)
        (index_from-Found 0 s.info.code.const_val obj)
