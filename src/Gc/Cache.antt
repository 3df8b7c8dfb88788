-- ===== src/Gc/Cache.antt =====
-- The cache of strings: `_pylt_gc_cache_add`, `pylt_gc_cache_str_add` and `pylt_gc_cache_bytes_add`,
-- and the strings that a collection frees; the flags of static objects.
use python_lite.Base.{
  ℕ, ◌≡◌, refl, Bool, true, false, not, ◌&&◌, ◌||◌, List, [], ◌∷◌, Option, none, some, arith,
  ==_iff, if◌then◌else◌, if_both,
}
use python_lite.Gc.Sets.{has, upset_remove, upset_add}
use python_lite.Gc.Heap.{Heap, Flags}
use python_lite.Gc.Collect.{Colours, gc_remove, sweep_one, sweep, remove_str}

-- `pylt_gc_static_add`: `!(flags | STATIC)` has the bit of STATIC set, so it is 0. It returns the
-- flags and the set of statics.
unfoldable pub static_add : ℕ → Flags → List ℕ → Flags × List ℕ
unfolding upset_add
static_add obj flags statics =
    if not (flags.can_free || true || flags.watch)
    then (record flags { static = true }, upset_add statics obj)
    else (flags, statics)

-- `pylt_gc_static_remove`, which flips the bit.
unfoldable pub static_remove : ℕ → Flags → List ℕ → Flags × List ℕ
unfolding upset_remove
static_remove obj flags statics =
    if flags.can_free || true || flags.watch
    then (record flags { static = not flags.static }, upset_remove statics obj)
    else (flags, statics)

module _ (same_str : ℕ → ℕ → Bool) where
  -- `pylt_obj_set_has`
  unfoldable pub find_str : List ℕ → ℕ → Option ℕ
  find_str [] key = none
  find_str (s ∷ cached) key =
      let rest = find_str cached key in if same_str s key then some s else rest

  -- `pylt_gc_cache_str_add`: a string that is cached already is released, and the cached one is
  -- returned. `pylt_gc_cache_bytes_add` is the same on bytes.
  abbrev pub cache_found : ℕ → Colours → Option ℕ → Colours × ℕ
  cache_found key gc none = (record gc { str_cached = key ∷ gc.str_cached }, key)
  cache_found key gc (some ret) =
      let removed = gc_remove key gc in (record removed { freed = key ∷ removed.freed }, ret)

  unfoldable pub cache_str_add : ℕ → Colours → Colours × ℕ
  unfolding find_str gc_remove
  cache_str_add key gc = cache_found key gc (find_str gc.str_cached key)

  -- No two strings of the cache are equal.
  abbrev pub IsInterned : List ℕ → Type 0
  IsInterned [] = Unit
  IsInterned (s ∷ cached) =
      ((x : ℕ) → has cached x ≡ true → same_str s x ≡ false) × IsInterned cached

  -- That two strings are equal is an equivalence.
  pub record IsEquality : Type 0 where
    pub reflexive : (a : ℕ) → same_str a a ≡ true
    pub symmetric : (a b : ℕ) → same_str a b ≡ true → same_str b a ≡ true
    pub transitive : (a b c : ℕ) → same_str a b ≡ true → same_str b c ≡ true → same_str a c ≡ true

  module _ (law : IsEquality) where
    has-remove_str :
        (cached : List ℕ) (obj x : ℕ)
        → IsInterned cached
        → has (remove_str same_str cached obj) x ≡ (has cached x && not (same_str x obj))
    unfolding remove_str
    has-remove_str [] obj x d = refl
    has-remove_str (s ∷ cached) obj x d = ground (
      arith,
      d.0 x,
      has-remove_str cached obj x d.1,
      law.reflexive s,
      law.symmetric x obj,
      law.transitive s obj x,
      ==_iff s x,
    )

    remove_str-IsInterned :
        (cached : List ℕ) (obj : ℕ)
        → IsInterned cached
        → IsInterned (remove_str same_str cached obj)
    unfolding remove_str
    remove_str-IsInterned [] obj d = tt
    remove_str-IsInterned (s ∷ cached) obj d = if_both IsInterned (same_str s obj) d.1 (
      λ x m. d.0 x (let kept = has-remove_str cached obj x d.1 in ground arith),
      remove_str-IsInterned cached obj d.1,
    )

    -- What the sweep leaves of the cache.
    pub record Uncached (objs : List ℕ) (heap : Heap) (gc gc' : Colours) : Type 0 where
      pub interned : IsInterned gc'.str_cached
      pub fewer : (x : ℕ) → has gc'.str_cached x ≡ true → has gc.str_cached x ≡ true
      pub gone :
          (x : ℕ)
          → has objs x ≡ true
          → (heap x).flags.can_free ≡ true
          → (heap x).flags.static ≡ false
          → (heap x).is_str_kind ≡ true
          → has gc'.str_cached x ≡ false

    sweep_one-Uncached :
        (heap : Heap) (gc : Colours) (obj : ℕ)
        → IsInterned gc.str_cached
        → Uncached (obj ∷ []) heap gc (sweep_one heap same_str gc obj)
    unfolding sweep_one
    sweep_one-Uncached heap gc obj d =
        let removed = remove_str-IsInterned gc.str_cached obj d in
        let kept = λ (x : ℕ). has-remove_str gc.str_cached obj x d in
        record {
          interned =
              if_both (λ (g : Colours). IsInterned g.str_cached) (not (heap obj).flags.can_free) d
                (if_both (λ (g : Colours). IsInterned g.str_cached) (not (heap obj).flags.static)
                  (if_both IsInterned (heap obj).is_str_kind removed d) d);
          fewer = λ x m. ground (arith, kept x);
          gone = λ x o c t k. ground (arith, kept x, ==_iff obj x, law.reflexive obj);
        }

    pub sweep-Uncached :
        (heap : Heap) (objs : List ℕ) (gc : Colours)
        → IsInterned gc.str_cached
        → Uncached objs heap gc (sweep heap same_str gc objs)
    unfolding sweep
    sweep-Uncached heap [] gc d = record {
      interned = d;
      fewer = λ x m. m;
      gone = λ x o. absurd (cc);
    }
    sweep-Uncached heap (obj ∷ objs) gc d =
        let one = sweep_one-Uncached heap gc obj d in
        let more = sweep-Uncached heap objs (sweep_one heap same_str gc obj) one.interned in
        record {
          interned = more.interned;
          fewer = λ x m. one.fewer x (more.fewer x m);
          gone = λ x o c t k. ground (arith, one.gone x, more.gone x, more.fewer x);
        }
