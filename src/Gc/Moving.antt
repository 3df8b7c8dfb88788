-- ===== src/Gc/Moving.antt =====
-- What `MOVE_WHITE` does to the sets, and how many objects can still be marked.
use python_lite.Base.{
  ℕ, ◌+◌, ◌≤◌, ◌≡◌, refl, ◌∙◌, Bool, true, false, not, ◌&&◌, ◌||◌, List, [], ◌∷◌, arith, ==_iff,
  length,
}
use python_lite.Gc.Sets.{
  has, has-upset_remove, has-upset_add, length-upset_add, count_in, count_in-upset_remove_lt,
}
use python_lite.Gc.Collect.{Colours, move_white, move_all}

-- The addresses that are `fresh` are those at which objects are made while the collection runs.
module _ (fresh : ℕ → Bool) where
  abbrev pub size : Colours → ℕ
  size gc = count_in fresh gc.white + length gc.grey

  -- None of the addresses is one at which an object is made.
  abbrev pub NoneFresh : List ℕ → Type 0
  NoneFresh objs = (x : ℕ) → has objs x ≡ true → fresh x ≡ false

  -- After the addresses `objs`: those that were white are grey, and nothing else has changed.
  pub record Moved (objs : List ℕ) (gc gc' : Colours) : Type 0 where
    pub white : (x : ℕ) → has gc'.white x ≡ (has gc.white x && not (has objs x))
    pub grey : (x : ℕ) → has gc'.grey x ≡ (has gc.grey x || (has gc.white x && has objs x))
    pub black : gc'.black ≡ gc.black
    pub str_cached : gc'.str_cached ≡ gc.str_cached
    pub freed : gc'.freed ≡ gc.freed
    pub smaller : size gc' ≤ size gc

  move_white-Moved :
      (gc : Colours) (obj : ℕ) → fresh obj ≡ false → Moved (obj ∷ []) gc (move_white gc obj)
  unfolding move_white
  move_white-Moved gc obj old = record {
    white = λ x. ground (arith, has-upset_remove gc.white obj x, ==_iff obj x);
    grey = λ x. ground (arith, has-upset_add gc.grey obj x, ==_iff obj x);
    black = ground arith;
    str_cached = ground arith;
    freed = ground arith;
    smaller =
        ground (arith, count_in-upset_remove_lt fresh gc.white obj, length-upset_add gc.grey obj);
  }

  pub move_all-Moved :
      (objs : List ℕ) (gc : Colours) → NoneFresh objs → Moved objs gc (move_all gc objs)
  unfolding move_all
  move_all-Moved [] gc old = record {
    white = λ x. ground arith;
    grey = λ x. ground arith;
    black = refl;
    str_cached = refl;
    freed = refl;
    smaller = omega arith;
  }
  move_all-Moved (obj ∷ objs) gc old =
      let one = move_white-Moved gc obj (old obj (ground (arith, ==_iff obj obj))) in
      let more = move_all-Moved objs (move_white gc obj) (λ x m. old x (ground arith)) in
      record {
        white = λ x. ground (arith, one.white x, more.white x);
        grey = λ x. ground (arith, one.white x, one.grey x, more.grey x);
        black = more.black ∙ one.black;
        str_cached = more.str_cached ∙ one.str_cached;
        freed = more.freed ∙ one.freed;
        smaller = omega (arith, one.smaller, more.smaller);
      }
