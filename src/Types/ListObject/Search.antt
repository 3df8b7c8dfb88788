-- ===== src/Types/ListObject/Search.antt =====
-- types/common/list.c: `pylt_obj_list_index`, `pylt_obj_list_has` and `pylt_obj_list_remove`. The
-- comparison of objects, `pylt_obj_eq`, is a parameter.
use mathlib.Core.List.{append_assoc, append-nil}
use mathlib.Core.Path.{subst}
use python_lite.Base.{
  ℕ, zero, suc, ◌+◌, ◌≡◌, refl, sym, ap, ◌∙◌, Bool, true, false, not, List, [], ◌∷◌, ◌++◌, map,
  Option, none, some, arith, length, length-append, get_elem?, if◌then◌else◌, if_true, if_false,
  Bool-cases, ◌⊎◌, inl, inr,
}
use python_lite.Base.Int.{ℤ, pos, negsuc, eqb_ℤ}
use python_lite.Types.ListObject.{
  ListObject, Changed, changed, overlapped, overran, slot, list_delitem,
}
use python_lite.Types.ListObject.Represents.{Represents, append_items}
use python_lite.Types.ListObject.Removal.{get-items, Deletes, list_delitem-Deletes}

module _ {V : Type 0} (eq : V → V → Bool) where
  -- What a round finds at slot `i`; a NULL in it is a fault.
  abbrev pub round : Option V → V → ℕ → Option (Option ℕ) → Option (Option ℕ)
  round none obj i later = none
  round (some o) obj i later = if eq o obj then some (some i) else later

  -- The loop `for (pl_int_t i = 0; i < self->ob_size; ++i)` of these functions, `left` rounds from
  -- its end; `some none` is the end of the loop.
  unfoldable pub find_loop : ℕ → ℕ → List (Option V) → V → Option (Option ℕ)
  find_loop zero i vals obj = some none
  find_loop (suc left) i vals obj =
      round (slot (get_elem? vals i)) obj i (find_loop left (i + 1) vals obj)

  abbrev pub index_of : Option (Option ℕ) → Option ℤ
  index_of none = none
  index_of (some none) = some (negsuc 0)
  index_of (some (some i)) = some (pos i)

  unfoldable pub list_index : ListObject V → V → Option ℤ
  unfolding find_loop
  list_index self obj = index_of (find_loop self.ob_size 0 self.ob_val obj)

  abbrev pub has_index : Option ℤ → Option Bool
  has_index none = none
  has_index (some i) = some (not (eqb_ℤ i (negsuc 0)))

  unfoldable pub list_has : ListObject V → V → Option Bool
  unfolding list_index
  list_has self obj = has_index (list_index self obj)

  abbrev after_delitem : Changed V → Changed V
  after_delitem (changed self done) = changed self true
  after_delitem overlapped = overlapped
  after_delitem overran = overran

  abbrev pub remove_at : ListObject V → Option (Option ℕ) → Changed V
  remove_at self none = overran
  remove_at self (some none) = changed self false
  remove_at self (some (some i)) = after_delitem (list_delitem self (pos i))

  unfoldable pub list_remove : ListObject V → V → Changed V
  unfolding find_loop
  list_remove self obj = remove_at self (find_loop self.ob_size 0 self.ob_val obj)

  -- No item of the list is equal to `obj`.
  abbrev pub NoneOf : V → List V → Type 0
  NoneOf obj [] = Unit
  NoneOf obj (x ∷ xs) = (eq x obj ≡ false) × NoneOf obj xs

  -- The item after `pre`, with `post` behind it, is the first one that is equal to `obj`.
  pub record IsFirst (obj : V) (xs pre : List V) (x : V) (post : List V) : Type 0 where
    pub splits : xs ≡ pre ++ x ∷ post
    pub before : NoneOf obj pre
    pub equal : eq x obj ≡ true

  -- What the search for `obj` may find.
  abbrev pub IsSearch : V → List V → Option ℕ → Type 0
  IsSearch obj xs none = NoneOf obj xs
  IsSearch obj xs (some k) =
      (pre : List V) × (x : V) × (post : List V) × IsFirst obj xs pre x post × (length pre ≡ k)

  NoneOf-append : (obj : V) (xs ys : List V) → NoneOf obj xs → NoneOf obj ys → NoneOf obj (xs ++ ys)
  NoneOf-append obj [] ys h g = g
  NoneOf-append obj (x ∷ xs) ys (e, h) g = (e, NoneOf-append obj xs ys h g)

  Searched : V → List V → Option (Option ℕ) → Type 0
  Searched obj xs out = (r : Option ℕ) × (out ≡ some r) × IsSearch obj xs r

  find_loop-IsSearch :
      (obj : V) (seen rest : List V) (spare : List (Option V)) (xs : List V)
      (vals : List (Option V)) (i left : ℕ)
      → xs ≡ seen ++ rest
      → vals ≡ map some xs ++ spare
      → NoneOf obj seen
      → i ≡ length seen
      → left ≡ length rest
      → Searched obj xs (find_loop left i vals obj)
  unfolding find_loop Searched
  find_loop-IsSearch obj seen [] spare xs vals i zero e a none_seen at n =
      (none, refl, subst (NoneOf obj) (sym (e ∙ append-nil seen)) none_seen)
  find_loop-IsSearch obj seen [] spare xs vals i (suc left) e a none_seen at n =
      absurd (omega arith)
  find_loop-IsSearch obj seen (x ∷ rest) spare xs vals i zero e a none_seen at n =
      absurd (omega arith)
  find_loop-IsSearch obj seen (x ∷ rest) spare xs vals i (suc left) e a none_seen at n =
      let later = find_loop left (i + 1) vals obj in
      let array = a ∙ ap (λ y. map some y ++ spare) e ∙ sym (append_items seen (x ∷ rest) spare) in
      let item : slot (get_elem? vals i) ≡ some x =
        ap (λ v. slot (get_elem? v i)) array
        ∙ ap slot (get-items seen x (map some rest ++ spare) i at) in
      let looked = ap (λ o. round o obj i later) item in
      elim (Bool-cases (eq x obj)) [
        | inl t ↦ (
          some i,
          looked ∙ if_true (eq x obj) (some (some i)) later t,
          (seen, x, rest, record { splits = e; before = none_seen; equal = t }, sym at),
        )
        | inr f ↦
            let (r, q, s) =
              find_loop-IsSearch obj (seen ++ x ∷ []) rest spare xs vals (i + 1) left
                (e ∙ sym (append_assoc seen (x ∷ []) rest)) a
                (NoneOf-append obj seen (x ∷ []) none_seen (f, tt))
                (omega (arith, length-append seen (x ∷ []))) (omega arith) in
            (r, looked ∙ if_false (eq x obj) (some (some i)) later f ∙ q, s)
      ]

  list-IsSearch :
      (l : ListObject V) (xs : List V) (obj : V)
      → Represents l xs
      → Searched obj xs (find_loop l.ob_size 0 l.ob_val obj)
  list-IsSearch l xs obj (spare, h) =
      find_loop-IsSearch obj [] xs spare xs l.ob_val 0 l.ob_size refl h.slots tt refl h.size

  -- What an index says: the first item that is equal to `obj` stands at it, or -1 and none is.
  abbrev pub IsIndex : V → List V → ℤ → Type 0
  IsIndex obj xs (pos k) = IsSearch obj xs (some k)
  IsIndex obj xs (negsuc n) = (n ≡ 0) × NoneOf obj xs

  -- The search for an object in a list that holds `xs` reads items only; it returns the place of
  -- the first one that is equal to the object, or -1 if none is.
  pub list_index-IsIndex :
      (l : ListObject V) (xs : List V) (obj : V)
      → Represents l xs
      → (i : ℤ) × (list_index l obj ≡ some i) × IsIndex obj xs i
  unfolding list_index Searched
  list_index-IsIndex l xs obj h =
      let (r, e, s) = list-IsSearch l xs obj h in
      elim r
          as (λ o.
            find_loop l.ob_size 0 l.ob_val obj ≡ some o
            → IsSearch obj xs o
            → (i : ℤ) × (index_of (find_loop l.ob_size 0 l.ob_val obj) ≡ some i)
              × IsIndex obj xs i) [
                | none ↦ λ q t. (negsuc 0, ap index_of q, (refl, t))
                | some k ↦ λ q t. (pos k, ap index_of q, t)
              ]
        e s

  after_delitem-Deletes :
      (l : ListObject V) (pre post : List V) (out : Changed V)
      → Deletes l pre post out
      → Deletes l pre post (after_delitem out)
  after_delitem-Deletes l pre post out d = record {
    defined = λ few. let (r, e, h) = d.defined few in (r, ap after_delitem e, h);
    undefined = λ many. ap after_delitem (d.undefined many);
  }

  -- What the removal comes to: none is equal and the list is as it was, or the deletion of the first
  -- item that is equal to `obj`.
  abbrev pub IsRemoved : V → List V → ListObject V → Changed V → Type 0
  IsRemoved obj xs l out =
      (NoneOf obj xs × (out ≡ changed l false))
      ⊎ ((pre : List V) × (x : V) × (post : List V) × IsFirst obj xs pre x post
          × Deletes l pre post out)

  -- Removing an object from a list that holds `xs`: it returns false with the list as it was if no
  -- item is equal to the object; otherwise, for the first one that is, with one item at most
  -- behind it, it takes out that item, keeps the others in order and returns true, and with more
  -- items behind it, it copies them between ranges that overlap.
  pub list_remove-IsRemoved :
      (l : ListObject V) (xs : List V) (obj : V)
      → Represents l xs
      → IsRemoved obj xs l (list_remove l obj)
  unfolding list_remove Searched
  list_remove-IsRemoved l xs obj h =
      let (r, e, s) = list-IsSearch l xs obj h in
      elim r
          as (λ o.
            find_loop l.ob_size 0 l.ob_val obj ≡ some o
            → IsSearch obj xs o
            → IsRemoved obj xs l (remove_at l (find_loop l.ob_size 0 l.ob_val obj))) [
              | none ↦ λ q t. inl (t, ap (remove_at l) q)
              | some k ↦ λ q (pre, x, post, first, at).
                  let d =
                    list_delitem-Deletes l pre post x (pos k) (subst (Represents l) first.splits h)
                      (sym at, omega (arith, length-append pre (x ∷ post))) in
                  inr (
                    pre,
                    x,
                    post,
                    first,
                    subst (Deletes l pre post) (sym (ap (remove_at l) q))
                        (after_delitem-Deletes l pre post (list_delitem l (pos k)) d),
                  )
            ]
        e s
