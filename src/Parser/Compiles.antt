-- ===== src/Parser/Compiles.antt =====
-- The code of a tree: that of its parts in their order, and then the operator.
use python_lite.Base.{ℕ, zero, suc, ◌≡◌, ◌⊎◌, List, [], ◌∷◌, ◌++◌, Bool, true, some, get_elem?}
use python_lite.Vm.Ops.{op_not, op_pow}
use python_lite.Vm.Codes.{
  Instruction, build_ins, bc_operator, bc_load_val, bc_load_val_, bc_loadconst, bc_loadnone,
}
use python_lite.Parser.State.{Const, value, none_obj}
use python_lite.Parser.Grammar.{
  Tree, name, literal, unary, negation, power, binary, Unary, unary_op,
}

module _ (same : Const → Const → Bool) where
  -- The constant at `i` is equal to `c`.
  abbrev pub Holds : List Const → ℕ → Const → Type 0
  Holds consts i c = (d : Const) × (get_elem? consts i ≡ some d) × (same d c ≡ true)

  pub data Compiles (consts : List Const) : Tree → List Instruction → Type 0 where
    loads :
        (i obj bc : ℕ)
        → Holds consts i (value obj)
        → (bc ≡ bc_load_val) ⊎ (bc ≡ bc_load_val_)
        → Compiles consts (name obj) (build_ins bc 0 i ∷ [])
    loads_none : Compiles consts (literal none_obj) (build_ins bc_loadnone 0 0 ∷ [])
    loads_const :
        (i : ℕ) (c : Const)
        → Holds consts i c
        → Compiles consts (literal c) (build_ins bc_loadconst 0 i ∷ [])
    applies :
        (o : Unary) {a : Tree} {code : List Instruction}
        → Compiles consts a code
        → Compiles consts (unary o a) (code ++ build_ins bc_operator 0 (unary_op o) ∷ [])
    negates :
        {a : Tree} {code : List Instruction}
        → Compiles consts a code
        → Compiles consts (negation a) (code ++ build_ins bc_operator 0 op_not ∷ [])
    raises :
        {a b : Tree} {code code' : List Instruction}
        → Compiles consts a code
        → Compiles consts b code'
        → Compiles consts (power a b) (code ++ (code' ++ build_ins bc_operator 0 op_pow ∷ []))
    combines :
        (op : ℕ) {a b : Tree} {code code' : List Instruction}
        → Compiles consts a code
        → Compiles consts b code'
        → Compiles consts (binary op a b) (code ++ (code' ++ build_ins bc_operator 0 op ∷ []))

  get_elem?-append :
      (consts more : List Const) (i : ℕ) {d : Const}
      → get_elem? consts i ≡ some d
      → get_elem? (consts ++ more) i ≡ some d
  get_elem?-append [] more i h = cc
  get_elem?-append (c ∷ consts) more zero h = h
  get_elem?-append (c ∷ consts) more (suc i) h = get_elem?-append consts more i h

  -- More constants change nothing.
  pub Compiles-append :
      (consts more : List Const) {e : Tree} {code : List Instruction}
      → Compiles consts e code
      → Compiles (consts ++ more) e code
  Compiles-append consts more (loads i obj bc (d, e, s) k) =
      loads i obj bc (d, get_elem?-append consts more i e, s) k
  Compiles-append consts more loads_none = loads_none
  Compiles-append consts more (loads_const i c (d, e, s)) =
      loads_const i c (d, get_elem?-append consts more i e, s)
  Compiles-append consts more (applies o h) = applies o (Compiles-append consts more h)
  Compiles-append consts more (negates h) = negates (Compiles-append consts more h)
  Compiles-append consts more (raises h k) =
      raises (Compiles-append consts more h) (Compiles-append consts more k)
  Compiles-append consts more (combines op h k) =
      combines op (Compiles-append consts more h) (Compiles-append consts more k)
