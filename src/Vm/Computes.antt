-- ===== src/Vm/Computes.antt =====
-- The code of a tree leaves its value on the stack.
use mathlib.Core.List.{append_assoc}
use python_lite.Base.{
  ℕ, zero, suc, ◌+◌, ◌≤◌, ◌<◌, ◌≡◌, refl, sym, ap, ◌∙◌, ◌⊎◌, inl, inr, Bool, true, false, List, [],
  ◌∷◌, ◌++◌, Option, none, some, arith, get_elem?, length, if◌then◌else◌, if_true, if_false, ltb,
  leb, ◌-◌, ◌%◌,
}
use python_lite.Vm.Ops.{op_not, op_pow}
use python_lite.Vm.Codes.{
  Instruction, build_ins, bc_operator, bc_load_val, bc_load_val_, bc_loadconst, bc_loadnone,
}
use python_lite.Vm.Operand.{
  Applied, object, null, raises, Objects, Stack, running, raised, is_binary, load_name, loaded,
  applied, applied_one, operator, const_at, load_const, load_val, exec,
}
use python_lite.Parser.State.{Const, none_obj, value}
use python_lite.Parser.Grammar.{Tree, Unary, plus, minus, tilde, unary_op}
use python_lite.Parser.Compiles.{
  Holds, Compiles, loads, loads_none, loads_const, applies, negates, combines,
}
use python_lite.Vm.Value.{
  EvalResult, result, fails, Binaries, eval, Respects, name_value, of_one, of_applied, apply_one,
  apply_two,
}

small : (op : ℕ) → is_binary op ≡ true → op % 65536 ≡ op
unfolding is_binary
small op h = ground arith

-- The code of two operands and an operator, in front of more code.
again :
    (code code' rest : List Instruction) (ins : Instruction)
    → (code ++ (code' ++ ins ∷ [])) ++ rest ≡ code ++ (code' ++ ins ∷ rest)
again code code' rest ins =
    append_assoc code (code' ++ ins ∷ []) rest
    ∙ ap (λ l. code ++ l) (append_assoc code' (ins ∷ []) rest)

get_elem?-lt {ℓ} :
    {A : Type ℓ} (xs : List A) (i : ℕ) {x : A} → get_elem? xs i ≡ some x → i < length xs
get_elem?-lt [] i e = cc
get_elem?-lt (y ∷ xs) zero e = omega arith
get_elem?-lt (y ∷ xs) (suc i) e = omega (arith, get_elem?-lt xs i e)

module _ {V E : Type 0} (o : Objects V E) where
  module _ (consts : List Const) where
    -- The code pushes the value, whatever is on the stack and follows in the code; or it stops with
    -- the error, and what was on the stack is still there.
    abbrev pub Meets : List Instruction → List Instruction → List V → EvalResult V E → Type 0
    Meets code rest stack (result v) =
        exec o consts (code ++ rest) (running stack) ≡ exec o consts rest (running (v ∷ stack))
    Meets code rest stack (fails e) =
        (left : List V) × (exec o consts (code ++ rest) (running stack) ≡ raised e (left ++ stack))

    abbrev pub Computes : List Instruction → EvalResult V E → Type 0
    Computes code r = (rest : List Instruction) (stack : List V) → Meets code rest stack r

    exec-raised :
        (code : List Instruction) (e : E) (stack : List V)
        → exec o consts code (raised e stack) ≡ raised e stack
    unfolding exec
    exec-raised [] e stack = refl
    exec-raised (ins ∷ code) e stack = refl

    -- The same of the state `s` in front of `rest`.
    abbrev Ends : List Instruction → List V → Stack V E → EvalResult V E → Type 0
    Ends rest stack s (result v) = exec o consts rest s ≡ exec o consts rest (running (v ∷ stack))
    Ends rest stack s (fails e) =
        (left : List V) × (exec o consts rest s ≡ raised e (left ++ stack))

    Ends-Meets :
        (code rest : List Instruction) (stack : List V) (s : Stack V E) (r : EvalResult V E)
        → exec o consts (code ++ rest) (running stack) ≡ exec o consts rest s
        → Ends rest stack s r
        → Meets code rest stack r
    Ends-Meets code rest stack s (result v) e h = e ∙ h
    Ends-Meets code rest stack s (fails x) e (left, h) = (left, e ∙ h)

    applied-Ends :
        (op : ℕ) (v w : V) (rest : List Instruction) (stack : List V) (x : Applied V E)
        → Ends rest stack (applied o op v w stack x) (of_applied o op v w x)
    applied-Ends op v w rest stack (object y) = refl
    applied-Ends op v w rest stack null = ([], exec-raised rest (o.unsupported op v w) stack)
    applied-Ends op v w rest stack (raises e) = ([], exec-raised rest e stack)

    applied_one-Ends :
        (op : ℕ) (v : V) (rest : List Instruction) (stack : List V) (x : Option V)
        → Ends rest stack (applied_one o op v stack x) (of_one o op v x)
    applied_one-Ends op v rest stack (some y) = refl
    applied_one-Ends op v rest stack none = ([], exec-raised rest (o.bad_operand op v) stack)

    loaded-Ends :
        (c : Const) (rest : List Instruction) (stack : List V) (x : Option V)
        → Ends rest stack (loaded o c stack x) (name_value o c x)
    loaded-Ends c rest stack (some y) = refl
    loaded-Ends c rest stack none = ([], exec-raised rest (o.name_error c) stack)

    operator-two :
        (op : ℕ) (v w : V) (rest : List Instruction) (stack : List V)
        → is_binary op ≡ true
        → exec o consts (build_ins bc_operator 0 op ∷ rest) (running (w ∷ (v ∷ stack)))
          ≡ exec o consts rest (applied o op v w stack (o.op_binary op v w))
    unfolding exec operator build_ins
    operator-two op v w rest stack b =
        ap (λ k. exec o consts rest (operator o k (w ∷ (v ∷ stack)))) (small op b)
        ∙ ap (exec o consts rest) (if_true (is_binary op) _ _ b)

    operator-one :
        (op : ℕ) (v : V) (rest : List Instruction) (stack : List V)
        → (op % 65536 ≡ op) × (is_binary op ≡ false)
        → exec o consts (build_ins bc_operator 0 op ∷ rest) (running (v ∷ stack))
          ≡ exec o consts rest (applied_one o op v stack (o.op_unary op v))
    unfolding exec operator build_ins
    operator-one op v rest stack (s, b) =
        ap (λ k. exec o consts rest (operator o k (v ∷ stack))) s
        ∙ ap (exec o consts rest) (if_false (is_binary op) _ _ b)

    two-Computes :
        (op : ℕ) (code code' : List Instruction) (ra rb : EvalResult V E)
        → is_binary op ≡ true
        → Computes code ra
        → Computes code' rb
        → Computes (code ++ (code' ++ build_ins bc_operator 0 op ∷ [])) (apply_two o op ra rb)
    two-Computes op code code' (fails e) rb b h k rest stack =
        let ins = build_ins bc_operator 0 op in
        let (left, q) = h (code' ++ ins ∷ rest) stack in
        (left, ap (λ l. exec o consts l (running stack)) (again code code' rest ins) ∙ q)
    two-Computes op code code' (result v) (fails e) b h k rest stack =
        let ins = build_ins bc_operator 0 op in
        let (left, q) = k (ins ∷ rest) (v ∷ stack) in
        (
          left ++ v ∷ [],
          ap (λ l. exec o consts l (running stack)) (again code code' rest ins)
              ∙ h (code' ++ ins ∷ rest) stack
              ∙ q
              ∙ ap (raised e) (sym (append_assoc left (v ∷ []) stack)),
        )
    two-Computes op code code' (result v) (result w) b h k rest stack =
        let ins = build_ins bc_operator 0 op in
        Ends-Meets (code ++ (code' ++ ins ∷ [])) rest stack
          (applied o op v w stack (o.op_binary op v w)) _
          (ap (λ l. exec o consts l (running stack)) (again code code' rest ins)
            ∙ h (code' ++ ins ∷ rest) stack
            ∙ k (ins ∷ rest) (v ∷ stack)
            ∙ operator-two op v w rest stack b)
          (applied-Ends op v w rest stack (o.op_binary op v w))

    one-Computes :
        (op : ℕ) (code : List Instruction) (ra : EvalResult V E)
        → (op % 65536 ≡ op) × (is_binary op ≡ false)
        → Computes code ra
        → Computes (code ++ build_ins bc_operator 0 op ∷ []) (apply_one o op ra)
    one-Computes op code (fails e) b h rest stack =
        let ins = build_ins bc_operator 0 op in
        let (left, q) = h (ins ∷ rest) stack in
        (left, ap (λ l. exec o consts l (running stack)) (append_assoc code (ins ∷ []) rest) ∙ q)
    one-Computes op code (result v) b h rest stack =
        let ins = build_ins bc_operator 0 op in
        Ends-Meets (code ++ ins ∷ []) rest stack (applied_one o op v stack (o.op_unary op v)) _
          (ap (λ l. exec o consts l (running stack)) (append_assoc code (ins ∷ []) rest)
            ∙ h (ins ∷ rest) stack
            ∙ operator-one op v rest stack b)
          (applied_one-Ends op v rest stack (o.op_unary op v))

    unary-small : (u : Unary) → (unary_op u % 65536 ≡ unary_op u) × (is_binary (unary_op u) ≡ false)
    unfolding is_binary
    unary-small plus = (refl, refl)
    unary-small minus = (refl, refl)
    unary-small tilde = (refl, refl)

    not-small : (op_not % 65536 ≡ op_not) × (is_binary op_not ≡ false)
    unfolding is_binary
    not-small = (refl, refl)

    pow-binary : is_binary op_pow ≡ true
    unfolding is_binary
    pow-binary = refl

    module _ (same : Const → Const → Bool) (law : Respects o same)
        (few : length consts ≤ 32768) where
      -- A constant is found by its index.
      const_at-Holds :
          (i : ℕ) (d : Const) → get_elem? consts i ≡ some d → const_at consts (i % 65536) ≡ some d
      unfolding const_at
      const_at-Holds i d e =
          let within = get_elem?-lt consts i e in
          let same_index : i % 65536 ≡ i = omega (arith, within) in
          ap
            (λ k.
              if ltb k 32768
              then get_elem? consts k
              else if leb (65536 - k) (length consts)
              then get_elem? consts (length consts + k - 65536)
              else none)
            same_index
          ∙ if_true (ltb i 32768) _ _ (ground (arith, within))
          ∙ e

      loaded-same :
          (c d : Const) (stack : List V) (r : Option V)
          → same d c ≡ true
          → loaded o d stack r ≡ loaded o c stack r
      loaded-same c d stack (some v) h = refl
      loaded-same c d stack none h = ap (λ e. raised e stack) (law.errors d c h)

      load_val-step :
          (bc i : ℕ) (rest : List Instruction) (stack : List V)
          → (bc ≡ bc_load_val) ⊎ (bc ≡ bc_load_val_)
          → exec o consts (build_ins bc 0 i ∷ rest) (running stack)
            ≡ exec o consts rest (load_val o stack (const_at consts (i % 65536)))
      unfolding exec build_ins
      load_val-step bc i rest stack (inl e) =
          ap (λ b. exec o consts (build_ins b 0 i ∷ rest) (running stack)) e
      load_val-step bc i rest stack (inr e) =
          ap (λ b. exec o consts (build_ins b 0 i ∷ rest) (running stack)) e

      name-Computes :
          (bc i x : ℕ)
          → Holds same consts i (value x)
          → (bc ≡ bc_load_val) ⊎ (bc ≡ bc_load_val_)
          → Computes (build_ins bc 0 i ∷ []) (name_value o (value x) (load_name o (value x)))
      name-Computes bc i x (d, e, h) b rest stack =
          Ends-Meets (build_ins bc 0 i ∷ []) rest stack
            (loaded o (value x) stack (load_name o (value x))) _
            (load_val-step bc i rest stack b
              ∙ ap (λ k. exec o consts rest (load_val o stack k)) (const_at-Holds i d e)
              ∙ ap (exec o consts rest) (
                  loaded-same (value x) d stack (load_name o d) h
                  ∙ ap (loaded o (value x) stack) (law.names d (value x) h)))
            (loaded-Ends (value x) rest stack (load_name o (value x)))

      const-Computes :
          (i : ℕ) (c : Const)
          → Holds same consts i c
          → Computes (build_ins bc_loadconst 0 i ∷ []) (result (o.const_obj c))
      unfolding exec build_ins
      const-Computes i c (d, e, h) rest stack =
          ap (λ k. exec o consts rest (load_const o stack k)) (const_at-Holds i d e)
          ∙ ap (λ v. exec o consts rest (running (v ∷ stack))) (law.values d c h)

      none-Computes : Computes (build_ins bc_loadnone 0 0 ∷ []) (result (o.const_obj none_obj))
      unfolding exec build_ins
      none-Computes rest stack = ap (λ v. exec o consts rest (running (v ∷ stack))) law.none_const

      -- In a machine with at most 2 ^ 15 constants, the code of a tree pushes the value of the tree,
      -- with any stack below and any code behind; or, where an operation fails, stops with its error.
      pub Compiles-Computes :
          {e : Tree} {code : List Instruction}
          → Compiles same consts e code
          → Binaries e
          → Computes code (eval o e)
      unfolding eval
      Compiles-Computes (loads i x bc h b) ok = name-Computes bc i x h b
      Compiles-Computes loads_none ok = none-Computes
      Compiles-Computes (loads_const i c h) ok = const-Computes i c h
      Compiles-Computes (applies u {a} {code} h) ok =
          one-Computes (unary_op u) code (eval o a) (unary-small u) (Compiles-Computes h ok)
      Compiles-Computes (negates {a} {code} h) ok =
          one-Computes op_not code (eval o a) not-small (Compiles-Computes h ok)
      Compiles-Computes (Compiles.raises {a} {b} {code} {code'} h k) ok =
          two-Computes op_pow code code' (eval o a) (eval o b) pow-binary (Compiles-Computes h ok.0)
            (Compiles-Computes k ok.1)
      Compiles-Computes (combines op {a} {b} {code} {code'} h k) ok =
          two-Computes op code code' (eval o a) (eval o b) ok.0 (Compiles-Computes h ok.1)
            (Compiles-Computes k ok.2)
