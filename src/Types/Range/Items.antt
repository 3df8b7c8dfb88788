-- ===== src/Types/Range/Items.antt =====
-- What a loop over a range takes.
use python_lite.Base.{
  ℕ, zero, suc, ◌+◌, ◌*◌, ◌^◌, ◌≤◌, ◌<◌, ◌≡◌, ap, sym, ◌∙◌, true, false, List, [], ◌∷◌, Option,
  none, some, if◌then◌else◌, get_elem?, ltb, arith, Bool-cases, inl, inr,
}
use python_lite.Base.Int.{
  ℤ, pos, pos_part, neg_part, ◌+ℤ◌, ◌≤ℤ◌, ltb_ℤ, +ℤ_parts, eq_of_parts, to_int64, to_int64_fits,
}
use python_lite.Types.Range.{Range, ArrayIter, range_iter, range_iternext, take_items}

-- The item `k` steps behind `i`, if it is before the end.
abbrev pub item : Range → ℕ → ℤ → ℕ → Option ℤ
item r by i k = if ltb_ℤ (i +ℤ pos (k * by)) r.stop then some (i +ℤ pos (k * by)) else none

suc_mul : (k by : ℕ) → suc k * by ≡ k * by + by
suc_mul k by = grind arith

zero_mul : (by : ℕ) → 0 * by ≡ 0
zero_mul by = grind arith

step_more : (r : Range) (by : ℕ) (i : ℤ) (k : ℕ) → item r by (i +ℤ pos by) k ≡ item r by i (suc k)
step_more r by i k = ap (λ (j : ℤ). if ltb_ℤ j r.stop then some j else none) same
  where
    same : (i +ℤ pos by) +ℤ pos (k * by) ≡ i +ℤ pos (suc k * by)
    same = eq_of_parts _ _ (
        omega (
          arith,
          +ℤ_parts (i +ℤ pos by) (pos (k * by)),
          +ℤ_parts i (pos by),
          +ℤ_parts i (pos (suc k * by)),
          suc_mul k by,
        ))

-- Behind the end there is none.
item_end : (r : Range) (by : ℕ) (i : ℤ) (k : ℕ) → ltb_ℤ i r.stop ≡ false → item r by i k ≡ none
item_end r by i k e = ground (arith, +ℤ_parts i (pos (k * by)))

item_first : (r : Range) (by : ℕ) (i : ℤ) → ltb_ℤ i r.stop ≡ true → item r by i zero ≡ some i
item_first r by i e =
    let same : i +ℤ pos (0 * by) ≡ i =
      eq_of_parts _ _ (omega (arith, +ℤ_parts i (pos (0 * by)), zero_mul by)) in
    rw (same, e)

ltb→lt : (a b : ℕ) → ltb a b ≡ true → a < b
ltb→lt a b h = ground arith

shifted :
    (r : Range) (by : ℕ) (i : ℤ) (xs : List ℤ)
    → ((k : ℕ) → get_elem? xs k ≡ item r by (i +ℤ pos by) k)
    → ltb_ℤ i r.stop ≡ true
    → (k : ℕ) → get_elem? (i ∷ xs) k ≡ item r by i k
shifted r by i xs at e zero = sym (item_first r by i e)
shifted r by i xs at e (suc k) = at k ∙ step_more r by i k

-- The items from an iterator on.
abbrev Taken : Range → ℕ → ArrayIter → ℕ → Type 0
Taken r by it fuel =
    (xs : List ℤ) × (take_items fuel r it ≡ some xs)
    × ((k : ℕ) → get_elem? xs k ≡ item r by it.index k)

iternext_end :
    (r : Range) (it : ArrayIter) → ltb_ℤ it.index r.stop ≡ false → range_iternext r it ≡ none
unfolding range_iternext
iternext_end r it e = ground (arith, e)

iternext_item :
    (r : Range) (it : ArrayIter)
    → r.start ≤ℤ it.index
    → ltb_ℤ it.index r.stop ≡ true
    → range_iternext r it ≡ some (it.index, record it { index = to_int64 (it.index +ℤ r.step) })
unfolding range_iternext
iternext_item r it le e = ground (arith, e)

take_done :
    (fuel : ℕ) (r : Range) (it : ArrayIter)
    → range_iternext r it ≡ none
    → take_items (suc fuel) r it ≡ some []
unfolding take_items
take_done fuel r it e = rw (e, take_items)

take_more :
    (fuel : ℕ) (r : Range) (it it' : ArrayIter) (x : ℤ) (xs : List ℤ)
    → range_iternext r it ≡ some (x, it')
    → take_items fuel r it' ≡ some xs
    → take_items (suc fuel) r it ≡ some (x ∷ xs)
unfolding take_items
take_more fuel r it it' x xs e h = rw (e, take_items) (rw h)

next_high :
    (i stop : ℤ) (by : ℕ)
    → pos_part stop + by ≤ 2 ^ 63 + neg_part stop
    → pos_part i + neg_part stop < pos_part stop + neg_part i
    → pos_part (i +ℤ pos by) < 2 ^ 63
unfolding ◌+ℤ◌
next_high i stop by high lt = ground arith

next_low : (i : ℤ) (by : ℕ) → neg_part i ≤ 2 ^ 63 → neg_part (i +ℤ pos by) ≤ 2 ^ 63
unfolding ◌+ℤ◌
next_low i by low = ground arith

-- The place behind an item that is before the end.
next_fits :
    (r : Range) (by : ℕ) (i : ℤ)
    → pos_part r.stop + by ≤ 2 ^ 63 + neg_part r.stop
    → neg_part i ≤ 2 ^ 63
    → ltb_ℤ i r.stop ≡ true
    → to_int64 (i +ℤ pos by) ≡ i +ℤ pos by
next_fits r by i high low e =
    to_int64_fits (i +ℤ pos by) (next_high i r.stop by high (ltb→lt _ _ e)) (next_low i by low)

take_from :
    (fuel : ℕ) (r : Range) (by : ℕ) (it : ArrayIter)
    → r.step ≡ pos by
    → 0 < by
    → pos_part r.stop + by ≤ 2 ^ 63 + neg_part r.stop
    → neg_part it.index ≤ 2 ^ 63
    → r.start ≤ℤ it.index
    → pos_part r.stop + neg_part it.index < pos_part it.index + neg_part r.stop + fuel
    → 0 < fuel
    → Taken r by it fuel
take_from zero r by it st up high low le enough some_fuel = elim some_fuel [ ]
take_from (suc fuel) r by it st up high low le enough some_fuel =
    elim (Bool-cases (ltb_ℤ it.index r.stop)) [
      | inr e ↦
          ([], take_done fuel r it (iternext_end r it e), λ k. sym (item_end r by it.index k e))
      | inl e ↦
          let it' : ArrayIter = record it { index = it.index +ℤ pos by } in
          let fits : to_int64 (it.index +ℤ pos by) ≡ it.index +ℤ pos by =
            next_fits r by it.index high low e in
          let next : range_iternext r it ≡ some (it.index, it') =
            iternext_item r it le e
            ∙ ap (λ (d : ℤ). some (it.index, record it { index = to_int64 (it.index +ℤ d) })) st
            ∙ ap (λ (j : ℤ). some (it.index, record it { index = j })) fits in
          let before : pos_part it.index + neg_part r.stop < pos_part r.stop + neg_part it.index =
            ltb→lt _ _ e in
          let (xs, run, at) =
            take_from fuel r by it' st up high (next_low it.index by low)
              (omega (arith, +ℤ_parts it.index (pos by)))
              (omega (arith, +ℤ_parts it.index (pos by))) (omega arith) in
          (
            it.index ∷ xs,
            take_more fuel r it it' it.index xs next run,
            shifted r by it.index xs at e,
          )
    ]

-- A loop over a range with a positive step, which does not start below -2 ^ 63 and of which the end and
-- a step are not above 2 ^ 63, so that no place overflows, with more fuel than there are integers
-- from the start to the end: it ends, and its item number k is the start and k steps, if that is
-- before the end, and there is none otherwise.
pub take_items-range :
    (r : Range) (by fuel : ℕ)
    → r.step ≡ pos by
    → 0 < by
    → neg_part r.start ≤ 2 ^ 63
    → pos_part r.stop + by ≤ 2 ^ 63 + neg_part r.stop
    → pos_part r.stop + neg_part r.start < pos_part r.start + neg_part r.stop + fuel
    → 0 < fuel
    → (xs : List ℤ) × (take_items fuel r (range_iter r) ≡ some xs)
      × ((k : ℕ)
          → get_elem? xs k ≡ (
              if ltb_ℤ (r.start +ℤ pos (k * by)) r.stop
              then some (r.start +ℤ pos (k * by))
              else none))
unfolding range_iter
take_items-range r by fuel st up low high enough some_fuel =
    take_from fuel r by _ st up high low (omega arith) enough some_fuel
