-- ===== src/Tests/GcTheorems.antt =====
-- The theorems of the collector at concrete inputs.
use python_lite.Base.{
  ℕ, Bool, [], ◌∷◌, ◌≡◌, refl, arith, true, false, not, some, ◌==◌, leb, ◌+◌, if◌then◌else◌,
}
use python_lite.Gc.Sets.{has, upset_remove, upset_add, take_at}
use python_lite.Gc.Heap.{Flags, Heap, Roots, roots_of, container, opaque, children}
use python_lite.Gc.Collect.{Colours, gc_add, collect, move_white, blacken, sweep_one, remove_str}
use python_lite.Gc.Marking.{IsFresh}
use python_lite.Gc.Moving.{NoneFresh}
use python_lite.Gc.Correct.{Fate, collect-Fate}
use python_lite.Gc.Cache.{static_add, static_remove, cache_str_add, IsInterned, IsEquality}
use python_lite.Gc.Interning.{IsAdded, static_flags, cache_str_add-IsInterned, collect-IsInterned}

abbrev plain_flags : Flags
plain_flags = record { can_free = true; static = false; watch = false }

-- A list at 1 that holds the string at 2; strings at 3 and 4 that nothing holds, 4 not to be freed;
-- and a list at 5 that holds itself.
abbrev heap : Heap
heap x =
    if x == 1
    then record { kind = container (2 ∷ []); flags = plain_flags; is_str_kind = false }
    else if x == 4
    then record {
      kind = opaque [];
      flags = record { can_free = false; static = false; watch = false };
      is_str_kind = true;
    }
    else if x == 5
    then record { kind = container (5 ∷ []); flags = plain_flags; is_str_kind = false }
    else if leb 100 x
    then record {
      kind = opaque [];
      flags = record { can_free = false; static = false; watch = false };
      is_str_kind = false;
    }
    else record { kind = opaque []; flags = plain_flags; is_str_kind = true }

-- New objects are at 100 and above.
abbrev iter_at : ℕ → ℕ
iter_at u = u + 100

abbrev fresh : ℕ → Bool
fresh x = leb 100 x

heap-IsFresh : IsFresh heap iter_at fresh
unfolding children
heap-IsFresh = record {
  made = λ u. ground arith;
  not_null = λ u. ground arith;
  unheld = λ u x h. ground arith;
  kept = λ x h. ground arith;
}

abbrev roots : Roots
roots = record { frames = []; stack = 1 ∷ []; cls_base = []; refs = []; builtins = 9 }

abbrev start : Colours
start = record {
  white = 5 ∷ 4 ∷ 3 ∷ 2 ∷ 1 ∷ [];
  grey = [];
  black = [];
  str_cached = 4 ∷ 3 ∷ 2 ∷ [];
  freed = [];
}

abbrev same_str : ℕ → ℕ → Bool
same_str a b = a == b

same_str-IsEquality : IsEquality same_str
same_str-IsEquality = record {
  reflexive = λ a. ground arith;
  symmetric = λ a b h. ground arith;
  transitive = λ a b c h k. ground arith;
}

start-IsInterned : IsInterned same_str start.str_cached
start-IsInterned = (λ x m. ground arith, (λ x m. ground arith, (λ x m. cc, tt)))

roots-NoneFresh : NoneFresh fresh (roots_of roots)
unfolding roots_of
roots-NoneFresh x h = ground arith

start-NoneFresh : NoneFresh fresh start.white
start-NoneFresh x h = ground arith

-- The iterator of the list at 1 is kept from now on.
collected :
    collect heap iter_at (λ n. 0) same_str roots start
    ≡ some (record {
      white = 4 ∷ 101 ∷ 2 ∷ 1 ∷ [];
      grey = [];
      black = [];
      str_cached = 4 ∷ 2 ∷ [];
      freed = 3 ∷ 5 ∷ [];
    })
unfolding collect move_white upset_remove upset_add blacken take_at sweep_one remove_str gc_add
collected = refl

collect-Fate_example :
    (done : Colours) × (collect heap iter_at (λ n. 0) same_str roots start ≡ some done)
    × (done.grey ≡ [])
    × (done.black ≡ [])
    × ((x : ℕ) → Fate heap same_str iter_at (roots_of roots) start done x)
collect-Fate_example =
    collect-Fate heap same_str iter_at fresh (λ n. 0) roots start heap-IsFresh roots-NoneFresh
      start-NoneFresh refl refl refl

collect-IsInterned_example :
    (done : Colours) × (collect heap iter_at (λ n. 0) same_str roots start ≡ some done)
    × IsInterned same_str done.str_cached
    × ((x : ℕ)
        → has done.freed x ≡ true
        → (heap x).is_str_kind ≡ true
        → has done.str_cached x ≡ false)
collect-IsInterned_example =
    collect-IsInterned same_str same_str-IsEquality heap iter_at fresh (λ n. 0) roots start
      heap-IsFresh roots-NoneFresh start-NoneFresh refl refl refl start-IsInterned

cache_str_add-IsInterned_example :
    IsAdded same_str same_str-IsEquality 7 start (cache_str_add same_str 7 start)
cache_str_add-IsInterned_example =
    cache_str_add-IsInterned same_str same_str-IsEquality 7 start start-IsInterned refl

static_flags_example :
    (static_add 7 plain_flags [] ≡ (plain_flags, []))
    × ((static_remove 7 plain_flags []).0.static ≡ not plain_flags.static)
static_flags_example = static_flags 7 plain_flags []
