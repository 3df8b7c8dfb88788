-- ===== src/Tests/RangeTheorems.antt =====
-- The theorems on ranges at concrete inputs.
use python_lite.Base.{
  ℕ, ◌*◌, ◌-◌, ◌^◌, List, [], ◌∷◌, some, none, ◌≡◌, refl, arith, if◌then◌else◌, get_elem?,
}
use python_lite.Base.Int.{ℤ, pos, negsuc, ◌+ℤ◌, ltb_ℤ, to_int64}
use python_lite.Types.Range.{Range, range_iter, take_items, range_iternext, range_itertimes}
use python_lite.Types.Range.Items.{take_items-range}

-- range(-1, 4, 2)
abbrev odd : Range
odd = record { start = negsuc 0; stop = pos 4; step = pos 2 }

-- range(5, 0, -1)
abbrev down : Range
down = record { start = pos 5; stop = pos 0; step = negsuc 0 }

odd_items : take_items 6 odd (range_iter odd) ≡ some (negsuc 0 ∷ pos 1 ∷ pos 3 ∷ [])
unfolding take_items range_iternext range_iter to_int64
odd_items = refl

-- The number of rounds that the iterator keeps is rounded down.
odd_times : range_itertimes odd ≡ pos 2
unfolding range_itertimes to_int64
odd_times = refl

take_items-range_example :
    (xs : List ℤ) × (take_items 6 odd (range_iter odd) ≡ some xs)
    × ((k : ℕ)
        → get_elem? xs k ≡ (
            if ltb_ℤ (negsuc 0 +ℤ pos (k * 2)) (pos 4)
            then some (negsuc 0 +ℤ pos (k * 2))
            else none))
take_items-range_example =
    take_items-range odd 2 6 refl (omega arith) (omega arith) (omega arith) (omega arith)
      (omega arith)

-- range(-2 ** 63, 2 ** 63 - 1, 2 ** 63 - 1): the place behind the third item wraps around to -3.
abbrev wide : Range
wide = record { start = negsuc (2 ^ 63 - 1); stop = pos (2 ^ 63 - 1); step = pos (2 ^ 63 - 1) }

wide_wraps :
    range_iternext wide (record { count = pos 1; index = pos (2 ^ 63 - 2) })
    ≡ some (pos (2 ^ 63 - 2), record { count = pos 1; index = negsuc 2 })
unfolding range_iternext to_int64
wide_wraps = refl
