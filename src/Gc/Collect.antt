-- ===== src/Gc/Collect.antt =====
-- `pylt_gc_add`, `pylt_gc_remove`, `pylt_gc_collect` and `pylt_gc_freeall`.
use python_lite.Base.{
  ℕ, zero, suc, ◌+◌, Bool, not, List, [], ◌∷◌, ◌++◌, Option, none, some, ◌==◌, if◌then◌else◌,
  length,
}
use python_lite.Gc.Sets.{has, upset_remove, upset_add, take_at}
use python_lite.Gc.Heap.{Heap, children, is_container, Roots, roots_of}

-- The three sets, the strings in `str_cached`, and what was given to `pylt_obj_free` by the sweep.
pub record Colours : Type 0 where
  pub white : List ℕ
  pub grey : List ℕ
  pub black : List ℕ
  pub str_cached : List ℕ
  pub freed : List ℕ

unfoldable pub gc_add : ℕ → Colours → Colours
unfolding upset_add
gc_add obj gc = if obj == 0 then gc else record gc { white = upset_add gc.white obj }

unfoldable pub gc_remove : ℕ → Colours → Colours
unfolding upset_remove
gc_remove obj gc = record gc { white = upset_remove gc.white obj }

-- `MOVE_WHITE`
unfoldable pub move_white : Colours → ℕ → Colours
move_white gc obj =
    if has gc.white obj
    then record gc { white = upset_remove gc.white obj; grey = upset_add gc.grey obj }
    else gc

unfoldable pub move_all : Colours → List ℕ → Colours
move_all gc [] = gc
move_all gc (obj ∷ objs) = move_all (move_white gc obj) objs

-- `pylt_obj_set_remove` on the cache: the first string that is equal is removed.
unfoldable pub remove_str : (ℕ → ℕ → Bool) → List ℕ → ℕ → List ℕ
remove_str same_str [] obj = []
remove_str same_str (s ∷ cached) obj =
    let rest = remove_str same_str cached obj in if same_str s obj then cached else s ∷ rest

-- `heap` gives the object at an address, and `iter_at` the address at which the iterator of a list, a
-- set or a tuple is made while that is marked: `pylt_obj_iter_new` adds it to the white objects.
module _ (heap : Heap) (iter_at : ℕ → ℕ) where
  abbrev pub iter_new : ℕ → Colours → Colours
  iter_new obj gc = if is_container (heap obj).kind then gc_add (iter_at obj) gc else gc

  -- A round of `while (upset_len(grey))`, for the object that was popped.
  unfoldable pub blacken : ℕ → List ℕ → Colours → Colours
  unfolding children gc_add
  blacken obj rest gc =
      move_all (iter_new obj (record gc { grey = rest; black = upset_add gc.black obj }))
        (children (heap obj).kind)

  -- The loop, on fuel; `pick` is the place of the first used slot of the table at each round.
  unfoldable pub mark_loop : (ℕ → ℕ) → ℕ → Colours → Option Colours
  mark_loop pick zero gc = none
  mark_loop pick (suc fuel) gc = elim gc.grey [
    | [] ↦ some gc
    | g ∷ grey ↦
        (let popped = take_at (pick fuel) g grey in
          mark_loop pick fuel (blacken (popped.0) (popped.1) gc))
  ]

module _ (heap : Heap) where
  -- A round of the sweep. `pylt_obj_free` also removes the object from `white`, which is cleared
  -- behind the loop. `same_str` is the equality of strings by which the cache is searched.
  unfoldable pub sweep_one : (ℕ → ℕ → Bool) → Colours → ℕ → Colours
  sweep_one same_str gc obj =
      let o = heap obj in
      if not o.flags.can_free
      then record gc { black = upset_add gc.black obj }
      else if not o.flags.static
      then record gc {
        str_cached = if o.is_str_kind then remove_str same_str gc.str_cached obj else gc.str_cached;
        freed = obj ∷ gc.freed;
      }
      else gc

  unfoldable pub sweep : (ℕ → ℕ → Bool) → Colours → List ℕ → Colours
  sweep same_str gc [] = gc
  sweep same_str gc (obj ∷ objs) = sweep same_str (sweep_one same_str gc obj) objs

  -- What follows the marking: the sweep, and white and black change places.
  abbrev pub finish : (ℕ → ℕ → Bool) → Option Colours → Option Colours
  finish same_str none = none
  finish same_str (some gc) =
      let swept = sweep same_str gc gc.white in
      some (record swept { white = swept.black; black = [] })

-- Each round of the marking takes a grey object, and each object turns grey once at most.
unfoldable pub collect :
    Heap → (ℕ → ℕ) → (ℕ → ℕ) → (ℕ → ℕ → Bool) → Roots → Colours → Option Colours
unfolding roots_of move_all mark_loop sweep
collect heap iter_at pick same_str roots gc = finish heap same_str (
    mark_loop heap iter_at pick (suc (length gc.white + length gc.grey))
      (move_all gc (roots_of roots)))

-- `pylt_gc_freeall`: every object of the set is freed, whatever its flags.
unfoldable pub freeall : Colours → Colours
freeall gc = record gc { freed = gc.white ++ gc.freed }
