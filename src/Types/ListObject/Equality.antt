-- ===== src/Types/ListObject/Equality.antt =====
-- types/common/list.c: `pylt_obj_list_eq` on two lists. It compares pointers: that two of them are
-- the same is a parameter.
use mathlib.Core.List.{append_assoc}
use python_lite.Base.{
  ℕ, zero, suc, ◌+◌, ◌≡◌, ◌↔◌, refl, sym, ap, ◌∙◌, Bool, true, false, List, [], ◌∷◌, ◌++◌, map,
  Option, none, some, arith, length, length-append, get_elem?, if◌then◌else◌, if_true, if_false,
  Bool-cases, inl, inr, ◌==◌, ==_iff,
}
use python_lite.Types.ListObject.{ListObject, slot}
use python_lite.Types.ListObject.Represents.{Represents, append_items}
use python_lite.Types.ListObject.Removal.{get-items}

module _ {V : Type 0} (same : V → V → Bool) where
  -- `self->ob_val[i] != castlist(other)->ob_val[i]`, with a slot that was never written a fault.
  abbrev pub round_eq : Option V → Option V → Option Bool → Option Bool
  round_eq (some a) (some b) later = if same a b then later else some false
  round_eq none b later = none
  round_eq (some a) none later = none

  -- The loop from slot `i` on, `left` rounds from its end.
  unfoldable pub eq_loop : ℕ → ℕ → List (Option V) → List (Option V) → Option Bool
  eq_loop zero i vals others = some true
  eq_loop (suc left) i vals others =
      round_eq (slot (get_elem? vals i)) (slot (get_elem? others i))
        (eq_loop left (i + 1) vals others)

  unfoldable pub list_eq : ListObject V → ListObject V → Option Bool
  unfolding eq_loop
  list_eq self other =
      if other.ob_size == self.ob_size
      then eq_loop self.ob_size 0 self.ob_val other.ob_val
      else some false

  module _ (same_iff : (a b : V) → (same a b ≡ true) ↔ (a ≡ b)) where
    -- `b` tells whether the lists are equal.
    Tells : List V → List V → Option Bool → Type 0
    Tells xs ys out = (b : Bool) × (out ≡ some b) × ((b ≡ true) ↔ (xs ≡ ys))

    eq_loop-Tells :
        (seen seen' xs ys : List V) (spare spare' vals others : List (Option V)) (i left : ℕ)
        → vals ≡ map some (seen ++ xs) ++ spare
        → others ≡ map some (seen' ++ ys) ++ spare'
        → i ≡ length seen
        → i ≡ length seen'
        → left ≡ length xs
        → left ≡ length ys
        → Tells xs ys (eq_loop left i vals others)
    unfolding eq_loop Tells
    eq_loop-Tells seen seen' [] [] spare spare' vals others i zero a b p q m n =
        (true, refl, (λ _. refl, λ _. refl))
    eq_loop-Tells seen seen' (x ∷ xs) ys spare spare' vals others i zero a b p q m n =
        absurd (omega arith)
    eq_loop-Tells seen seen' [] (y ∷ ys) spare spare' vals others i zero a b p q m n =
        absurd (omega arith)
    eq_loop-Tells seen seen' [] ys spare spare' vals others i (suc left) a b p q m n =
        absurd (omega arith)
    eq_loop-Tells seen seen' (x ∷ xs) [] spare spare' vals others i (suc left) a b p q m n =
        absurd (omega arith)
    eq_loop-Tells seen seen' (x ∷ xs) (y ∷ ys) spare spare' vals others i (suc left) a b p q m n =
        let later = eq_loop left (i + 1) vals others in
        let at : slot (get_elem? vals i) ≡ some x =
          ap (λ v. slot (get_elem? v i)) (a ∙ sym (append_items seen (x ∷ xs) spare))
          ∙ ap slot (get-items seen x (map some xs ++ spare) i p) in
        let at' : slot (get_elem? others i) ≡ some y =
          ap (λ v. slot (get_elem? v i)) (b ∙ sym (append_items seen' (y ∷ ys) spare'))
          ∙ ap slot (get-items seen' y (map some ys ++ spare') i q) in
        let looked : round_eq (slot (get_elem? vals i)) (slot (get_elem? others i)) later
            ≡ (if same x y then later else some false) =
          ap (λ s. round_eq s (slot (get_elem? others i)) later) at
          ∙ ap (λ s. round_eq (some x) s later) at' in
        elim (Bool-cases (same x y)) [
          | inl t ↦
              let (r, e, iff) =
                eq_loop-Tells (seen ++ x ∷ []) (seen' ++ y ∷ []) xs ys spare spare' vals others
                  (i + 1) left
                  (a ∙ ap (λ z. map some z ++ spare) (sym (append_assoc seen (x ∷ []) xs)))
                  (b ∙ ap (λ z. map some z ++ spare') (sym (append_assoc seen' (y ∷ []) ys)))
                  (omega (arith, length-append seen (x ∷ [])))
                  (omega (arith, length-append seen' (y ∷ []))) (omega arith) (omega arith) in
              (
                r,
                looked ∙ if_true (same x y) later (some false) t ∙ e,
                (
                  λ u. (λ j. (same_iff x y).0 t j ∷ iff.0 u j),
                  λ u. iff.1 (let tails : xs ≡ ys = cc in tails),
                ),
              )
          | inr f ↦ (
            false,
            looked ∙ if_false (same x y) later (some false) f,
            (λ u. cc, λ u. (let heads : x ≡ y = cc in let yes = (same_iff x y).1 heads in cc)),
          )
        ]

    -- Equality of two lists that hold items reads items only, and tells whether the items are
    -- equal, where `same` tells whether two items are.
    pub list_eq_iff :
        (l o : ListObject V) (xs ys : List V)
        → Represents l xs
        → Represents o ys
        → (b : Bool) × (list_eq l o ≡ some b) × ((b ≡ true) ↔ (xs ≡ ys))
    unfolding list_eq Tells
    list_eq_iff l o xs ys (spare, h) (spare', g) =
        let u = h.size in
        let v = g.size in
        let compared = eq_loop l.ob_size 0 l.ob_val o.ob_val in
        elim (Bool-cases (o.ob_size == l.ob_size)) [
          | inl t ↦
              let even : o.ob_size ≡ l.ob_size = (==_iff o.ob_size l.ob_size).0 t in
              let (b, e, iff) =
                eq_loop-Tells [] [] xs ys spare spare' l.ob_val o.ob_val 0 l.ob_size h.slots g.slots
                  refl refl u (omega arith) in
              (b, if_true (o.ob_size == l.ob_size) compared (some false) t ∙ e, iff)
          | inr f ↦ (
            false,
            if_false (o.ob_size == l.ob_size) compared (some false) f,
            (
              λ e. cc,
              λ e.
                  let lengths : length xs ≡ length ys = ap length e in
                  let even : o.ob_size ≡ l.ob_size = omega arith in
                  let yes = (==_iff o.ob_size l.ob_size).1 even in cc,
            ),
          )
        ]
