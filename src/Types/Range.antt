-- ===== src/Types/Range.antt =====
-- types/extra/range.c, and the parts of types/extra/iter.c that iterate over a range. A `pl_int_t` has
-- 64 bits, and a sum or a difference that does not fit wraps around.
pub mod Items
use python_lite.Base.{
  ℕ, zero, suc, ◌/◌, ◌+◌, Bool, true, false, ◌&&◌, not, List, [], ◌∷◌, Option, none, some,
  if◌then◌else◌, ltb,
}
use python_lite.Base.Int.{ℤ, pos, negsuc, ◌+ℤ◌, ◌-ℤ◌, ltb_ℤ, to_int64}

-- `PyLiteRangeObject`; `step` is not zero.
pub record Range : Type 0 where
  pub start : ℤ
  pub stop : ℤ
  pub step : ℤ

-- `array` of `PyLiteIterObject`
pub record ArrayIter : Type 0 where
  pub count : ℤ
  pub index : ℤ

abbrev minus : ℕ → ℤ
minus zero = pos 0
minus (suc n) = negsuc n

-- The quotient of C, which drops the fraction.
abbrev pub quotient : ℤ → ℤ → ℤ
quotient (pos a) (pos b) = pos (a / b)
quotient (pos a) (negsuc b) = minus (a / suc b)
quotient (negsuc a) (pos b) = minus (suc a / b)
quotient (negsuc a) (negsuc b) = pos (suc a / suc b)

-- `ceil` of an integer is the integer.
unfoldable pub range_itertimes : Range → ℤ
unfolding ◌-ℤ◌
range_itertimes r =
    let times = quotient (to_int64 (r.stop -ℤ r.start)) r.step in
    if ltb_ℤ times (pos 0) then pos 0 else times

-- The case of a range of `pylt_obj_iter_new`.
unfoldable pub range_iter : Range → ArrayIter
unfolding range_itertimes
range_iter r = record { count = range_itertimes r; index = r.start }

-- `pylt_obj_range_iternext`: the item and the iterator behind it, or NULL.
unfoldable pub range_iternext : Range → ArrayIter → Option (ℤ × ArrayIter)
unfolding ◌+ℤ◌
range_iternext r it =
    if not (ltb_ℤ it.index r.start) && ltb_ℤ it.index r.stop
    then some (it.index, record it { index = to_int64 (it.index +ℤ r.step) })
    else none

-- The items that a loop over the range takes, as `BC_FORITER` calls `pylt_obj_iter_next` until it
-- returns NULL; `none` is a loop that needs more fuel.
abbrev pub after_item : Option (List ℤ) → ℤ → Option (List ℤ)
after_item none x = none
after_item (some xs) x = some (x ∷ xs)

unfoldable pub take_items : ℕ → Range → ArrayIter → Option (List ℤ)
take_items zero r it = none
take_items (suc fuel) r it = elim (range_iternext r it) [
  | none ↦ some []
  | some p ↦ after_item (take_items fuel r p.1) p.0
]
