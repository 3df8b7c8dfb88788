-- ===== src/Types/ListObject.antt =====
-- types/common/list.c: the list object, an array with a size and a capacity.
pub mod Represents
pub mod Removal
pub mod Flaws
pub mod Search
pub mod Equality
use python_lite.Base.{
  ℕ, zero, suc, ◌+◌, ◌-◌, ◌*◌, ◌/◌, Bool, true, false, not, List, [], ◌∷◌, Option, none, some, ltb,
  leb, ◌==◌, if◌then◌else◌, length, get_elem?,
}
use python_lite.Base.Int.{ℤ, pos, negsuc, ◌+ℤ◌, ltb_ℤ, pos_part}
use python_lite.Types.Slots.{
  replicate, take, drop, grow, store, write, copy, Copied, copied, overlaps, outside,
}

pub record ListObject (V : Type 0) : Type 0 where
  pub ob_size : ℕ
  pub ob_maxsize : ℕ
  pub ob_val : List (Option V)

-- What `pylt_obj_list_delitem` and `pylt_obj_list_insert` come to: the list they leave and what they
-- return, or what C does not define, a copy between ranges that overlap or an access outside the
-- array.
pub data Changed (V : Type 0) : Type 0 where
  changed : ListObject V → Bool → Changed V
  overlapped : Changed V
  overran : Changed V

-- `index_chk`: a negative index counts from the end; `none` is the early return.
unfoldable pub index_chk : ℤ → ℕ → Option ℕ
unfolding ◌+ℤ◌
index_chk index size =
    let i = if ltb_ℤ index (pos 0) then index +ℤ pos size else index in
    if ltb_ℤ i (pos 0) then none else if ltb_ℤ i (pos size) then some (pos_part i) else none

module _ {V : Type 0} where
  -- `pylt_obj_list_new`
  unfoldable pub list_new : ListObject V
  list_new = record { ob_size = 0; ob_maxsize = 4; ob_val = replicate 4 none }

  -- `pylt_obj_list_new_with_size`
  unfoldable pub list_new_with_size : ℕ → ListObject V
  list_new_with_size size = record { ob_size = 0; ob_maxsize = size; ob_val = replicate size none }

  -- A new capacity, with the array grown to it.
  abbrev pub reserve : ℕ → ListObject V → ListObject V
  reserve n self = record self { ob_maxsize = n; ob_val = grow n self.ob_val }

  -- `list_resize_maxsize_more_then`
  unfoldable pub resize_maxsize_more_then : ListObject V → ℕ → ListObject V
  resize_maxsize_more_then self size = if ltb self.ob_maxsize size then reserve size self else self

  -- `pylt_obj_list_append`: the new list and the index of the new item.
  abbrev pub append_grown : ListObject V → ListObject V
  append_grown self =
      if leb self.ob_maxsize self.ob_size
      then reserve (if self.ob_maxsize == 0 then 4 else self.ob_maxsize * 2) self
      else self

  abbrev pub stored : ListObject V → Option (List (Option V)) → Option (ListObject V × ℕ)
  stored self none = none
  stored self (some val) =
      some (record self { ob_val = val; ob_size = self.ob_size + 1 }, self.ob_size + 1 - 1)

  unfoldable pub list_append : ListObject V → V → Option (ListObject V × ℕ)
  list_append self obj =
      let grown = append_grown self in stored grown (store grown.ob_val grown.ob_size (some obj))

  unfoldable pub list_clear : ListObject V → ListObject V
  list_clear self = record self { ob_size = 0 }

  -- `pylt_obj_list_copy`: the fields are copied, `ob_maxsize` among them, and the new array has
  -- `ob_size` slots.
  unfoldable pub list_copy : ListObject V → ListObject V
  list_copy self = record self { ob_val = take self.ob_size self.ob_val }

  unfoldable pub list_count : ListObject V → ℕ
  list_count self = self.ob_size

  -- `pylt_obj_list_extend`
  abbrev pub extend_grown : ListObject V → ListObject V → ListObject V
  extend_grown self obj =
      if leb self.ob_maxsize (self.ob_size + obj.ob_size)
      then reserve (self.ob_size + obj.ob_size) self
      else self

  abbrev pub resized : ListObject V → ℕ → Option (List (Option V)) → Option (ListObject V)
  resized self n none = none
  resized self n (some val) = some (record self { ob_val = val; ob_size = n })

  unfoldable pub list_extend : ListObject V → ListObject V → Option (ListObject V)
  list_extend self obj =
      let grown = extend_grown self obj in
      resized grown (grown.ob_size + obj.ob_size)
        (write grown.ob_val grown.ob_size (take obj.ob_size obj.ob_val))

  abbrev pub slot : Option (Option V) → Option V
  slot none = none
  slot (some o) = o

  -- `pylt_obj_list_pop`; NULL for an empty list.
  unfoldable pub list_pop : ListObject V → ListObject V × Option V
  list_pop self = if self.ob_size == 0 then (self, none) else (
    record self { ob_size = self.ob_size - 1 },
    slot (get_elem? self.ob_val (self.ob_size - 1)),
  )

  -- `pylt_obj_list_getitem`; NULL for an index out of range.
  abbrev pub getitem_at : ListObject V → Option ℕ → Option V
  getitem_at self none = none
  getitem_at self (some i) = slot (get_elem? self.ob_val i)

  unfoldable pub list_getitem : ListObject V → ℤ → Option V
  list_getitem self index = getitem_at self (index_chk index self.ob_size)

  -- What `pylt_obj_list_setitem` returns with the list it leaves.
  abbrev pub replaced : ListObject V → Option (List (Option V)) → Option (ListObject V × Bool)
  replaced self none = none
  replaced self (some val) = some (record self { ob_val = val }, true)

  abbrev pub setitem_at : ListObject V → V → Option ℕ → Option (ListObject V × Bool)
  setitem_at self obj none = some (self, false)
  setitem_at self obj (some i) = replaced self (store self.ob_val i (some obj))

  unfoldable pub list_setitem : ListObject V → ℤ → V → Option (ListObject V × Bool)
  list_setitem self index obj = setitem_at self obj (index_chk index self.ob_size)

  abbrev pub removed : ListObject V → Copied V → Changed V
  removed self (copied val) =
      changed (record self { ob_val = val; ob_size = self.ob_size - 1 }) true
  removed self overlaps = overlapped
  removed self outside = overran

  -- The items after slot `i` copied one slot down, when there are any.
  abbrev pub close_gap : ListObject V → ℕ → Copied V
  close_gap self i =
      if i == self.ob_size - 1
      then copied self.ob_val
      else copy self.ob_val i (i + 1) (self.ob_size - i - 1)

  abbrev pub delitem_at : ListObject V → Option ℕ → Changed V
  delitem_at self none = changed self false
  delitem_at self (some i) = removed self (close_gap self i)

  unfoldable pub list_delitem : ListObject V → ℤ → Changed V
  list_delitem self index = delitem_at self (index_chk index self.ob_size)

  abbrev pub insert_grown : ListObject V → ListObject V
  insert_grown self =
      if leb self.ob_maxsize (self.ob_size + 1) then reserve (self.ob_size + 1) self else self

  abbrev pub placed : ListObject V → Option (List (Option V)) → Changed V
  placed self none = overran
  placed self (some val) = changed (record self { ob_val = val }) true

  abbrev pub filled : ListObject V → ℕ → V → Copied V → Changed V
  filled self i obj (copied val) = placed self (store val i (some obj))
  filled self i obj overlaps = overlapped
  filled self i obj outside = overran

  -- The items from slot `i` on copied one slot up, with one slot more than there are items; then
  -- `self->ob_val[index] = obj`.
  abbrev pub open_gap : ListObject V → ℕ → V → Changed V
  open_gap self i obj = filled self i obj (copy self.ob_val (i + 1) i (self.ob_size - i + 1))

  abbrev pub insert_at : ListObject V → V → Option ℕ → Changed V
  insert_at self obj none = changed self false
  insert_at self obj (some i) = open_gap (insert_grown self) i obj

  -- `pylt_obj_list_insert`, which leaves `ob_size` as it is.
  unfoldable pub list_insert : ListObject V → ℤ → V → Changed V
  list_insert self index obj = insert_at self obj (index_chk index self.ob_size)
