-- ===== src/Gc/Interning.antt =====
-- The cache of strings holds no two equal strings, and none that was freed; the static flags.
use python_lite.Base.{
  ℕ, ◌≡◌, refl, ap, Bool, true, false, not, List, [], ◌∷◌, Option, none, some, arith, ==_iff,
  if_cases,
}
use python_lite.Gc.Sets.{has}
use python_lite.Gc.Heap.{Heap, Flags, Roots, roots_of}
use python_lite.Gc.Collect.{Colours, gc_remove, sweep, collect, finish}
use python_lite.Gc.Marking.{IsFresh}
use python_lite.Gc.Moving.{NoneFresh}
use python_lite.Gc.Correct.{sweep-Swept, marked}
use python_lite.Gc.Cache.{
  static_add, static_remove, find_str, cache_found, cache_str_add, IsInterned, IsEquality,
  sweep-Uncached,
}

-- Adding an object to the statics changes neither its flags nor the set, whatever the flags are;
-- and removing one flips its bit, so an object that was not static becomes static.
pub static_flags :
    (obj : ℕ) (flags : Flags) (statics : List ℕ)
    → (static_add obj flags statics ≡ (flags, statics))
      × ((static_remove obj flags statics).0.static ≡ not flags.static)
unfolding static_add static_remove
static_flags obj flags statics = ground arith

module _ (same_str : ℕ → ℕ → Bool) (law : IsEquality same_str) where
  -- What the search finds in the cache: a string that is equal to the key, or none is.
  abbrev IsFound : List ℕ → ℕ → Option ℕ → Type 0
  IsFound cached key none = (x : ℕ) → has cached x ≡ true → same_str x key ≡ false
  IsFound cached key (some s) = (has cached s ≡ true) × (same_str s key ≡ true)

  IsFound-next :
      (s key : ℕ) (cached : List ℕ) (r : Option ℕ)
      → same_str s key ≡ false
      → IsFound cached key r
      → IsFound (s ∷ cached) key r
  IsFound-next s key cached none e h = λ x m. ground (arith, h x, ==_iff s x)
  IsFound-next s key cached (some r) e h = ground arith

  find_str-IsFound : (cached : List ℕ) (key : ℕ) → IsFound cached key (find_str same_str cached key)
  unfolding find_str
  find_str-IsFound [] key = λ x m. cc
  find_str-IsFound (s ∷ cached) key =
      if_cases (IsFound (s ∷ cached) key) (same_str s key) (λ e. (ground (arith, ==_iff s s), e))
        (λ e.
          IsFound-next s key cached (find_str same_str cached key) e (find_str-IsFound cached key))

  pub record IsAdded (key : ℕ) (gc : Colours) (added : Colours × ℕ) : Type 0 where
    pub interned : IsInterned same_str (added.0).str_cached
    pub cached : has (added.0).str_cached (added.1) ≡ true
    pub equal : same_str (added.1) key ≡ true
    pub held : (x : ℕ) → has (added.0).str_cached x ≡ true → has (added.0).freed x ≡ has gc.freed x

  cache_found-IsAdded :
      (key : ℕ) (gc : Colours) (found : Option ℕ)
      → IsInterned same_str gc.str_cached
      → has gc.str_cached key ≡ false
      → IsFound gc.str_cached key found
      → IsAdded key gc (cache_found same_str key gc found)
  unfolding gc_remove
  cache_found-IsAdded key gc none d new h = record {
    interned = (λ x m. ground (arith, h x m, law.symmetric key x), d);
    cached = ground (arith, ==_iff key key);
    equal = law.reflexive key;
    held = λ x m. refl;
  }
  cache_found-IsAdded key gc (some ret) d new h = record {
    interned = d;
    cached = h.0;
    equal = h.1;
    held = λ x m. ground (arith, ==_iff key x);
  }

  -- After a new string is added to a cache with no two equal strings: still no two are equal; the
  -- string returned is in the cache and equal to the new one; and no string of the cache was
  -- released by the call.
  pub cache_str_add-IsInterned :
      (key : ℕ) (gc : Colours)
      → IsInterned same_str gc.str_cached
      → has gc.str_cached key ≡ false
      → IsAdded key gc (cache_str_add same_str key gc)
  unfolding cache_str_add
  cache_str_add-IsInterned key gc d new =
      cache_found-IsAdded key gc (find_str same_str gc.str_cached key) d new
        (find_str-IsFound gc.str_cached key)

  -- A collection from a state between two collections, with a cache that holds no two equal
  -- strings, where the iterators that it makes are at addresses that no managed object has, no root
  -- is and no object holds: afterwards no two strings of the cache are equal, and no string that
  -- was freed is in it.
  pub collect-IsInterned :
      (heap : Heap) (iter_at : ℕ → ℕ) (fresh : ℕ → Bool) (pick : ℕ → ℕ) (roots : Roots)
      (gc : Colours)
      → IsFresh heap iter_at fresh
      → NoneFresh fresh (roots_of roots)
      → NoneFresh fresh gc.white
      → gc.grey ≡ []
      → gc.black ≡ []
      → gc.freed ≡ []
      → IsInterned same_str gc.str_cached
      → (done : Colours) × (collect heap iter_at pick same_str roots gc ≡ some done)
        × IsInterned same_str done.str_cached
        × ((x : ℕ)
            → has done.freed x ≡ true
            → (heap x).is_str_kind ≡ true
            → has done.str_cached x ≡ false)
  unfolding collect
  collect-IsInterned heap iter_at fresh pick roots gc new unrooted unmanaged g b f d =
      let (m, runs, over, good) =
        marked heap same_str iter_at fresh new (roots_of roots) unrooted gc unmanaged pick g b in
      let swept = sweep heap same_str m m.white in
      let cache = sweep-Uncached same_str law heap m.white m (rw good.str_cached d) in
      let sets = sweep-Swept heap same_str m.white m in
      (
        record swept { white = swept.black; black = [] },
        ap (finish heap same_str) runs,
        cache.interned,
        λ x r k. ground (arith, sets.freed x, good.freed, cache.gone x),
      )
