-- ===== src/Vm/Call/Binds.antt =====
-- The loop over the parameters gives each what it takes.
use python_lite.Base.{
  ℕ, suc, ◌+◌, ◌-◌, ◌≡◌, refl, ap, sym, ◌∙◌, true, false, List, [], ◌∷◌, ◌++◌, Option, none, some,
  arith, ◌==◌, length, map, length-append, ◌⊎◌, inl, inr,
}
use mathlib.Core.List.{append_assoc, append-nil}
use python_lite.Parser.Emit.{take, drop}
use python_lite.Types.Function.{
  Default, undefined_param, args_param, kwargs_param, value_param, Keywords,
}
use python_lite.Vm.Call.{
  Param, Arg, given, packed, keywords, Binding, Bound, bound, missing, too_many, find_kwarg,
  pop_kwarg, all_kwargs, need_kwarg, default_kwarg, values, pack, bind_step, bind_loop, bind_args,
}
use python_lite.Vm.Call.Matched.{with_arg, kwarg_or, by_name, serve, matched, KwargsLast}

Option-cases {ℓ} : {A : Type ℓ} (o : Option A) → (o ≡ none) ⊎ ((a : A) × (o ≡ some a))
Option-cases none = inl refl
Option-cases (some a) = inr (a, refl)

same_number : (n : ℕ) → (n == n) ≡ true
same_number n = ground arith

not_all : (n l : ℕ) → (n == n + suc l) ≡ false
not_all n l = ground arith

module _ {V : Type 0} where
  abbrev behind : List (Arg V) → Bound V → Bound V
  behind done (bound l) = bound (done ++ l)
  behind done (missing i) = missing i
  behind done too_many = too_many

  abbrev state : List (Arg V) → ℕ → ℕ → Option (Keywords V) → Binding V
  state stack n m kw = record { stack = stack; args_i = n; params_num = m; kwargs = kw }

  behind-with_arg :
      (done : List (Arg V)) (x : Arg V) (r : Bound V)
      → behind (done ++ x ∷ []) r ≡ behind done (with_arg x r)
  behind-with_arg done x (bound l) = ap bound (append_assoc done (x ∷ []) l)
  behind-with_arg done x (missing i) = refl
  behind-with_arg done x too_many = refl

  -- Where no positional argument is left: one parameter, and then the others.
  Named : ℕ → List (Param V) → Type 0
  Named i ps =
      (done : List (Arg V)) (n : ℕ) (kw : Option (Keywords V))
      → bind_loop i ps (state done n n kw) ≡ behind done (matched i ps [] kw)

  abbrev next_param : ℕ → List (Param V) → Option (Binding V) → Bound V
  next_param i ps none = missing i
  next_param i ps (some b) = bind_loop (i + 1) ps b

  Named-one :
      (d : Default V) (name i : ℕ) (ps : List (Param V))
      → Named (i + 1) ps
      → (done : List (Arg V)) (n : ℕ) (kw : Option (Keywords V))
      → next_param i ps (bind_step name d (state done n n kw))
        ≡ behind done (serve d name i [] kw (matched (i + 1) ps))
  unfolding bind_step Named
  Named-one undefined_param name i ps ih done n kw = rw (same_number n) (found (find_kwarg name kw))
    where
      found :
          (o : Option V)
          → next_param i ps (need_kwarg name o (state done n n kw))
            ≡ behind done (by_name i o (matched (i + 1) ps [] (pop_kwarg name kw)))
      found none = refl
      found (some v) =
          ih (done ++ given v ∷ []) n (pop_kwarg name kw) ∙ behind-with_arg done (given v) _
  Named-one args_param name i ps ih done n kw =
      rw (same_number n) (ih (done ++ packed [] ∷ []) n kw ∙ behind-with_arg done (packed []) _)
  Named-one kwargs_param name i ps ih done n kw =
      ih (done ++ keywords (all_kwargs kw) ∷ []) n kw
      ∙ behind-with_arg done (keywords (all_kwargs kw)) _
  Named-one (value_param d) name i ps ih done n kw = rw (same_number n) (found (find_kwarg name kw))
    where
      found :
          (o : Option V)
          → bind_loop (i + 1) ps (default_kwarg o d (state done n n kw))
            ≡ behind done (with_arg (given (kwarg_or o d)) (matched (i + 1) ps [] kw))
      found none = ih (done ++ given d ∷ []) n kw ∙ behind-with_arg done (given d) _
      found (some v) = ih (done ++ given v ∷ []) n kw ∙ behind-with_arg done (given v) _

  bind_step_next :
      (i : ℕ) (p : Param V) (ps : List (Param V)) (b : Binding V)
      → bind_loop i (p ∷ ps) b ≡ next_param i ps (bind_step p.name p.defobj b)
  unfolding bind_loop
  bind_step_next i p ps b = elim (Option-cases (bind_step p.name p.defobj b)) [
    | inl e ↦ rw (e, bind_loop)
    | inr (b', e) ↦ rw (e, bind_loop)
  ]

  bind-Named : (i : ℕ) (ps : List (Param V)) → Named i ps
  unfolding bind_loop Named
  bind-Named i [] done n kw = rw (same_number n, append-nil)
  bind-Named i (p ∷ ps) done n kw =
      bind_step_next i p ps (state done n n kw)
      ∙ Named-one p.defobj p.name i ps (bind-Named (i + 1) ps) done n kw

  state_eq :
      {s s' : List (Arg V)} {n n' m m' : ℕ} (kw : Option (Keywords V))
      → s ≡ s'
      → n ≡ n'
      → m ≡ m'
      → state s n m kw ≡ state s' n' m' kw
  state_eq kw e f g = cc

  -- The state with the positional arguments `xs` left, of which none has been passed over.
  abbrev waiting : List (Arg V) → List V → Option (Keywords V) → Binding V
  waiting done xs kw = state (done ++ map given xs) (length done) (length done + length xs) kw

  waiting_none :
      (done : List (Arg V)) (kw : Option (Keywords V))
      → waiting done [] kw ≡ state done (length done) (length done) kw
  waiting_none done kw = state_eq kw (append-nil done) refl (omega arith)

  waiting_next :
      (done : List (Arg V)) (x : V) (xs : List V) (kw : Option (Keywords V))
      → state (done ++ map given (x ∷ xs)) (length done + 1) (length done + suc (length xs)) kw
        ≡ waiting (done ++ given x ∷ []) xs kw
  waiting_next done x xs kw =
      state_eq kw (sym (append_assoc done (given x ∷ []) (map given xs)))
        (omega (arith, length-append {0} done (given x ∷ [])))
        (omega (arith, length-append {0} done (given x ∷ [])))

  values-given : (xs : List V) → values (map given xs) ≡ xs
  values-given [] = refl
  values-given (x ∷ xs) = ap (λ l. x ∷ l) (values-given xs)

  length-given : (xs : List V) → length (map given xs) ≡ length xs
  length-given [] = refl
  length-given (x ∷ xs) = ap suc (length-given xs)

  take-append : (l r : List (Arg V)) → take (length l) (l ++ r) ≡ l
  take-append [] [] = refl
  take-append [] (x ∷ r) = refl
  take-append (x ∷ l) r = ap (λ t. x ∷ t) (take-append l r)

  take-all : (l : List (Arg V)) → take (length l) l ≡ l
  take-all [] = refl
  take-all (x ∷ l) = ap (λ t. x ∷ t) (take-all l)

  drop-append : (l r : List (Arg V)) → drop (length l) (l ++ r) ≡ r
  drop-append [] r = refl
  drop-append (x ∷ l) r = drop-append l r

  pack-waiting :
      (done : List (Arg V)) (xs : List V) (kw : Option (Keywords V))
      → pack (waiting done xs kw) ≡ state (done ++ packed xs ∷ []) (length done) (length done) kw
  pack-waiting done xs kw =
      let given_xs : List (Arg V) = map given xs in
      let left_over : length done + length xs - length done ≡ length given_xs =
        omega (arith, length-given xs) in
      let kept : length (done ++ given_xs) - length given_xs ≡ length done =
        omega (arith, length-append {0} done given_xs) in
      state_eq kw (rw (left_over, kept, take-append, drop-append, take-all, values-given) refl) refl
        refl

  -- Where positional arguments are left.
  Placed : ℕ → List (Param V) → Type 0
  Placed i ps =
      (done : List (Arg V)) (xs : List V) (kw : Option (Keywords V))
      → bind_loop i ps (waiting done xs kw) ≡ behind done (matched i ps xs kw)

  end_more :
      (i : ℕ) (b : Binding V) → (b.args_i == b.params_num) ≡ false → bind_loop i [] b ≡ too_many
  unfolding bind_loop
  end_more i b e = rw e

  Placed-one :
      (d : Default V) (name i : ℕ) (ps : List (Param V))
      → Placed (i + 1) ps
      → (d ≡ kwargs_param → ps ≡ [])
      → (done : List (Arg V)) (x : V) (xs : List V) (kw : Option (Keywords V))
      → next_param i ps (bind_step name d (waiting done (x ∷ xs) kw))
        ≡ behind done (serve d name i (x ∷ xs) kw (matched (i + 1) ps))
  unfolding bind_step Placed Named
  Placed-one undefined_param name i ps ih last done x xs kw =
      rw (not_all (length done) (length xs)) (
        ap (bind_loop (i + 1) ps) (waiting_next done x xs kw)
        ∙ ih (done ++ given x ∷ []) xs kw
        ∙ behind-with_arg done (given x) _)
  Placed-one args_param name i ps ih last done x xs kw = rw (not_all (length done) (length xs)) (
      ap (bind_loop (i + 1) ps) (pack-waiting done (x ∷ xs) kw)
      ∙ bind-Named (i + 1) ps (done ++ packed (x ∷ xs) ∷ []) (length done) kw
      ∙ behind-with_arg done (packed (x ∷ xs)) _)
  Placed-one kwargs_param name i ps ih last done x xs kw =
      rw (last refl) (end_more (i + 1) _ (not_all (length done) (length xs)))
  Placed-one (value_param d) name i ps ih last done x xs kw =
      rw (not_all (length done) (length xs)) (
        ap (bind_loop (i + 1) ps) (waiting_next done x xs kw)
        ∙ ih (done ++ given x ∷ []) xs kw
        ∙ behind-with_arg done (given x) _)

  bind-Placed : (i : ℕ) (ps : List (Param V)) → KwargsLast ps → Placed i ps
  unfolding Placed Named
  bind-Placed i ps last done [] kw =
      ap (bind_loop i ps) (waiting_none done kw) ∙ bind-Named i ps done (length done) kw
  bind-Placed i [] last done (x ∷ xs) kw = end_more i _ (not_all (length done) (length xs))
  bind-Placed i (p ∷ ps) last done (x ∷ xs) kw =
      bind_step_next i p ps (waiting done (x ∷ xs) kw)
      ∙ Placed-one p.defobj p.name i ps (bind-Placed (i + 1) ps last.1) last.0 done x xs kw

  behind_nothing : (r : Bound V) → behind [] r ≡ r
  behind_nothing (bound l) = refl
  behind_nothing (missing i) = refl
  behind_nothing too_many = refl

  -- For parameters of which at most the last is `**kwargs`, and any arguments: what the call leaves
  -- on the stack, or its error, is what the parameters take one after the other.
  pub bind_args-matched :
      (params : List (Param V)) (args : List V) (kwargs : Option (Keywords V))
      → KwargsLast params
      → bind_args params args kwargs ≡ matched 0 params args kwargs
  unfolding bind_args Placed
  bind_args-matched params args kwargs last =
      ap (bind_loop 0 params) (state_eq kwargs refl refl (omega arith))
      ∙ bind-Placed 0 params last [] args kwargs
      ∙ behind_nothing (matched 0 params args kwargs)
