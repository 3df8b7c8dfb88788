-- ===== src/Types/ListObject/Removal.antt =====
-- types/common/list.c: items read, replaced and taken out by an index.
use python_lite.Base.{
  ℕ, zero, suc, ◌+◌, ◌-◌, ◌≤◌, ◌<◌, ◌≡◌, refl, sym, ap, ◌∙◌, List, [], ◌∷◌, ◌++◌, map, true, false,
  Option, none, some, arith, leb, ◌==◌, length, get_elem?, length-append, if_true, if_false,
}
use python_lite.Base.Int.{ℤ, pos, negsuc, ◌+ℤ◌}
use python_lite.Types.Slots.{
  take, drop, store, write, move, copy, overlap, as_copied, copied, overlaps, store-append,
}
use python_lite.Types.ListObject.{
  ListObject, index_chk, list_pop, list_delitem, list_setitem, list_getitem, close_gap, removed,
  replaced, slot, Changed, changed, overlapped, getitem_at, setitem_at, delitem_at,
}
use python_lite.Types.ListObject.Represents.{
  Holds, Represents, length-items, take-items, drop-items, append_items, write-items,
}

-- The index `z` names the item after the `k` first of `n`, from the front or from the end.
abbrev pub Names : ℤ → ℕ → ℕ → Type 0
Names (pos i) k n = (i ≡ k) × (k < n)
Names (negsuc i) k n = (k + suc i ≡ n)

pub Names-< : (z : ℤ) (k n : ℕ) → Names z k n → k < n
Names-< (pos i) k n (e, lt) = lt
Names-< (negsuc i) k n e = omega arith

pub index_chk-Names : (z : ℤ) (k n : ℕ) → Names z k n → index_chk z n ≡ some k
unfolding index_chk ◌+ℤ◌
index_chk-Names (pos i) k n (e, lt) = ground arith
index_chk-Names (negsuc i) k n e = ground arith

module _ {V : Type 0} where
  pub get-items :
      (pre : List V) (x : V) (rest : List (Option V)) (k : ℕ)
      → k ≡ length pre
      → get_elem? (map some pre ++ some x ∷ rest) k ≡ some (some x)
  get-items [] x rest zero e = refl
  get-items [] x rest (suc k) e = absurd (omega arith)
  get-items (p ∷ pre) x rest zero e = absurd (omega arith)
  get-items (p ∷ pre) x rest (suc k) e = get-items pre x rest k (omega arith)

  -- Of a list that holds items, pop returns the last one and leaves a list that holds the others.
  pub list_pop-Represents :
      (l : ListObject V) (xs : List V) (x : V)
      → Represents l (xs ++ x ∷ [])
      → (r : ListObject V) × (list_pop l ≡ (r, some x)) × Represents r xs
  unfolding list_pop
  list_pop-Represents l xs x (spare, h) =
      let z = h.size in
      let c = h.capacity in
      let n = length-append xs (x ∷ []) in
      let t = h.slots ∙ sym (append_items xs (x ∷ []) spare) in
      let some_left : (l.ob_size == 0) ≡ false = ground arith in
      let last : slot (get_elem? l.ob_val (l.ob_size - 1)) ≡ some x = ap slot (
        ap (λ a. get_elem? a (l.ob_size - 1)) t
        ∙ get-items xs x spare (l.ob_size - 1) (omega arith)) in
      let r = record l { ob_size = l.ob_size - 1 } in
      (
        r,
        if_false (l.ob_size == 0) (l, none) (r, slot (get_elem? l.ob_val (l.ob_size - 1))) some_left
            ∙ ap (λ o. (r, o)) last,
        (some x ∷ spare, record { slots = t; size = omega arith; capacity = omega arith }),
      )

  -- The array of a list that holds `pre`, `x` and `post` splits at `x`.
  split :
      (pre : List V) (x : V) (post : List V) (spare : List (Option V))
      → map some (pre ++ x ∷ post) ++ spare ≡ map some pre ++ some x ∷ (map some post ++ spare)
  split pre x post spare = sym (append_items pre (x ∷ post) spare)

  -- At an index that names an item, getitem returns the item.
  pub list_getitem-Represents :
      (l : ListObject V) (pre post : List V) (x : V) (z : ℤ)
      → Represents l (pre ++ x ∷ post)
      → Names z (length pre) (length (pre ++ x ∷ post))
      → list_getitem l z ≡ some x
  unfolding list_getitem
  list_getitem-Represents l pre post x z (spare, h) names =
      let i : index_chk z l.ob_size ≡ some (length pre) =
        ap (index_chk z) h.size ∙ index_chk-Names z (length pre) (length (pre ++ x ∷ post)) names in
      let s = h.slots ∙ split pre x post spare in
      ap (getitem_at l) i
      ∙ ap (λ a. slot (get_elem? a (length pre))) s
      ∙ ap slot (get-items pre x (map some post ++ spare) (length pre) refl)

  -- At an index that names an item, setitem is in bounds, returns true and replaces that item and
  -- no other.
  pub list_setitem-Represents :
      (l : ListObject V) (pre post : List V) (x y : V) (z : ℤ)
      → Represents l (pre ++ x ∷ post)
      → Names z (length pre) (length (pre ++ x ∷ post))
      → (r : ListObject V) × (list_setitem l z y ≡ some (r, true)) × Represents r (pre ++ y ∷ post)
  unfolding list_setitem
  list_setitem-Represents l pre post x y z (spare, h) names =
      let i : index_chk z l.ob_size ≡ some (length pre) =
        ap (index_chk z) h.size ∙ index_chk-Names z (length pre) (length (pre ++ x ∷ post)) names in
      let s = h.slots ∙ split pre x post spare in
      let a = length-append pre (x ∷ post) in
      let b = length-append pre (y ∷ post) in
      let u = h.size in
      let c = h.capacity in
      (
        record l { ob_val = map some (pre ++ y ∷ post) ++ spare },
        ap (setitem_at l y) i
            ∙ ap (λ a. replaced l (store a (length pre) (some y))) s
            ∙ ap (replaced l) (
                store-append pre (some x) (map some post ++ spare) (some y) (length pre) refl
                ∙ ap some (sym (split pre y post spare))),
        (spare, record { slots = refl; size = omega arith; capacity = omega arith }),
      )

  -- Moving the items after `x` one slot down.
  move-items :
      (pre post : List V) (x : V) (spare : List (Option V))
      → move
          (map some pre ++ some x ∷ (map some post ++ spare))
          (length pre)
          (length pre + 1)
          (length post)
        ≡ some (map some (pre ++ post) ++ drop (length post) (some x ∷ (map some post ++ spare)))
  unfolding move
  move-items pre post x spare =
      let tail = some x ∷ (map some post ++ spare) in
      let a = map some pre ++ tail in
      let n = length pre in
      let m = length post in
      let u = length-items pre tail in
      let w = length-items post spare in
      let fits : leb (n + 1 + m) (length a) ≡ true = ground arith in
      if_true (leb (n + 1 + m) (length a)) (write a n (take m (drop (n + 1) a))) none fits
      ∙ ap (λ d. write a n (take m d)) (drop-items pre (n + 1) 1 tail refl)
      ∙ ap (write a n) (take-items post spare)
      ∙ write-items pre post tail n refl (omega arith)

  -- What is left where `x` was taken out: the slot of the last item is spare.
  Closed : ListObject V → List V → List V → List (Option V) → Type 0
  Closed l pre post spare =
      (rest : List (Option V)) × (close_gap l (length pre)
        ≡ copied (map some (pre ++ post) ++ rest))
      × (length rest ≡ suc (length spare))

  -- With an item behind `x`, the copy is of all that are behind it.
  close_gap-copy :
      (l : ListObject V) (pre post : List V) (x p : V) (spare : List (Option V))
      → Holds l (pre ++ x ∷ p ∷ post) spare
      → close_gap l (length pre)
        ≡ as_copied (overlap (length pre) (length pre + 1) (length (p ∷ post))) (
            some (
              map some (pre ++ p ∷ post)
              ++ drop (length (p ∷ post)) (some x ∷ (map some (p ∷ post) ++ spare))))
  unfolding copy
  close_gap-copy l pre post x p spare h =
      let u = h.size in
      let n = length pre in
      let a = length-append pre (x ∷ p ∷ post) in
      let inside : (n == l.ob_size - 1) ≡ false = ground arith in
      let k : l.ob_size - n - 1 ≡ length (p ∷ post) = omega arith in
      let as_move = as_copied {V = V} (overlap n (n + 1) (length (p ∷ post))) in
      if_false (n == l.ob_size - 1) (copied l.ob_val) (copy l.ob_val n (n + 1) (l.ob_size - n - 1))
        inside
      ∙ ap (copy l.ob_val n (n + 1)) k
      ∙ ap (λ v. as_move (move v n (n + 1) (length (p ∷ post))))
          (h.slots ∙ split pre x (p ∷ post) spare)
      ∙ ap as_move (move-items pre (p ∷ post) x spare)

  close-items :
      (l : ListObject V) (pre post : List V) (x : V) (spare : List (Option V))
      → Holds l (pre ++ x ∷ post) spare
      → length post ≤ 1
      → Closed l pre post spare
  unfolding Closed
  close-items l pre [] x spare h few =
      let u = h.size in
      let a = length-append pre (x ∷ []) in
      let at_end : (length pre == l.ob_size - 1) ≡ true = ground arith in
      (
        some x ∷ spare,
        if_true (length pre == l.ob_size - 1) (copied l.ob_val)
              (copy l.ob_val (length pre) (length pre + 1) (l.ob_size - length pre - 1)) at_end
            ∙ ap copied (h.slots ∙ split pre x [] spare ∙ append_items pre [] (some x ∷ spare)),
        refl,
      )
  close-items l pre (p ∷ []) x spare h few =
      let apart : overlap (length pre) (length pre + 1) 1 ≡ false = ground arith in
      (
        some p ∷ spare,
        close_gap-copy l pre [] x p spare h
            ∙ ap (λ b. as_copied b (some (map some (pre ++ p ∷ []) ++ some p ∷ spare))) apart,
        refl,
      )
  close-items l pre (p ∷ q ∷ post) x spare h few = absurd (omega arith)

  close-overlaps :
      (l : ListObject V) (pre post : List V) (x : V) (spare : List (Option V))
      → Holds l (pre ++ x ∷ post) spare
      → 1 < length post
      → close_gap l (length pre) ≡ overlaps
  close-overlaps l pre [] x spare h many = absurd (omega arith)
  close-overlaps l pre (p ∷ post) x spare h many =
      let meet : overlap (length pre) (length pre + 1) (length (p ∷ post)) ≡ true = ground arith in
      let tail : List (Option V) = some x ∷ (map some (p ∷ post) ++ spare) in
      close_gap-copy l pre post x p spare h
      ∙ ap (λ b. as_copied b (some (map some (pre ++ p ∷ post) ++ drop (length (p ∷ post)) tail)))
          meet

  -- What delitem comes to at an item with `post` behind it.
  pub record Deletes (l : ListObject V) (pre post : List V) (out : Changed V) : Type 0 where
    pub defined :
        length post ≤ 1 → (r : ListObject V) × (out ≡ changed r true) × Represents r (pre ++ post)
    pub undefined : 1 < length post → out ≡ overlapped

  -- At an index, from the front or negative from the end, that names an item with one item at most
  -- behind it, delitem is in bounds, returns true and takes out that item, keeping the others in
  -- order; with more items behind it, it copies them between ranges that overlap.
  pub list_delitem-Deletes :
      (l : ListObject V) (pre post : List V) (x : V) (z : ℤ)
      → Represents l (pre ++ x ∷ post)
      → Names z (length pre) (length (pre ++ x ∷ post))
      → Deletes l pre post (list_delitem l z)
  unfolding list_delitem Closed
  list_delitem-Deletes l pre post x z (spare, h) names =
      let i : index_chk z l.ob_size ≡ some (length pre) =
        ap (index_chk z) h.size ∙ index_chk-Names z (length pre) (length (pre ++ x ∷ post)) names in
      let a = length-append pre (x ∷ post) in
      let b = length-append pre post in
      let u = h.size in
      let c = h.capacity in
      record {
        defined = λ few.
            let (rest, e, n) = close-items l pre post x spare h few in
            (
              record l { ob_val = map some (pre ++ post) ++ rest; ob_size = l.ob_size - 1 },
              ap (delitem_at l) i ∙ ap (removed l) e,
              (rest, record { slots = refl; size = omega arith; capacity = omega arith }),
            );
        undefined =
            λ many. ap (delitem_at l) i ∙ ap (removed l) (close-overlaps l pre post x spare h many);
      }
