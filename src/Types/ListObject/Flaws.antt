-- ===== src/Types/ListObject/Flaws.antt =====
-- types/common/list.c: the copy of a list with spare slots, and insertion.
use python_lite.Base.{
  ℕ, ◌+◌, ◌-◌, ◌*◌, ◌≤◌, ◌<◌, ◌≡◌, ap, ◌∙◌, List, map, true, false, none, some, arith, leb, ◌==◌,
  if◌then◌else◌, length, if_true, if_false,
}
use python_lite.Base.Int.{ℤ}
use python_lite.Types.Slots.{take, store, store_out, length-grow, copy_out}
use python_lite.Types.ListObject.{
  ListObject, index_chk, reserve, list_append, list_copy, list_insert, open_gap, overran, stored,
  insert_at, filled,
}
use python_lite.Types.ListObject.Represents.{Represents, length-items, take-items, length-map-some}
use python_lite.Types.ListObject.Removal.{Names, Names-<, index_chk-Names}

module _ {V : Type 0} where
  -- A copy of a list with spare slots keeps the capacity and has none of the spare slots: the
  -- first append to it writes past the end of its array.
  pub list_append-list_copy :
      (l : ListObject V) (xs : List V) (v : V)
      → Represents l xs
      → l.ob_size < l.ob_maxsize
      → list_append (list_copy l) v ≡ none
  unfolding list_append list_copy
  list_append-list_copy l xs v (spare, h) lt =
      let u = h.size in
      let t : take l.ob_size l.ob_val ≡ map some xs = rw (u, h.slots, take-items xs spare) in
      let room : leb l.ob_maxsize l.ob_size ≡ false = ground arith in
      let copy = record l { ob_val = take l.ob_size l.ob_val } in
      let more = if l.ob_maxsize == 0 then 4 else l.ob_maxsize * 2 in
      let n = length-map-some xs in
      ap (λ g. stored g (store g.ob_val g.ob_size (some v)))
        (if_false (leb l.ob_maxsize l.ob_size) (reserve more copy) copy room)
      ∙ ap (λ a. stored copy (store a l.ob_size (some v))) t
      ∙ ap (stored copy) (store_out (map some xs) l.ob_size (some v) (omega arith))

  -- Inserting at an index of a list with one spare slot at most: the items are moved over one
  -- slot more than there are, past the end of the array.
  pub list_insert_overruns :
      (l : ListObject V) (xs : List V) (v : V) (z : ℤ) (k : ℕ)
      → Represents l xs
      → l.ob_maxsize ≤ l.ob_size + 1
      → Names z k (length xs)
      → list_insert l z v ≡ overran
  unfolding list_insert
  list_insert_overruns l xs v z k (spare, h) full names =
      let u = h.size in
      let c = h.capacity in
      let lt = Names-< z k (length xs) names in
      let n = ap length h.slots ∙ length-items xs spare in
      let i = ap (index_chk z) u ∙ index_chk-Names z k (length xs) names in
      let grows : leb l.ob_maxsize (l.ob_size + 1) ≡ true = ground arith in
      let g = length-grow (l.ob_size + 1) l.ob_val (omega arith) in
      let grown = reserve (l.ob_size + 1) l in
      let past = copy_out grown.ob_val (k + 1) k (l.ob_size - k + 1) (omega arith) (omega arith) in
      ap (insert_at l v) i
      ∙ ap (λ g. open_gap g k v) (if_true (leb l.ob_maxsize (l.ob_size + 1)) grown l grows)
      ∙ ap (filled grown k v) past
