-- ===== src/Gc/Correct.antt =====
-- `pylt_gc_collect`: what is freed and what is kept.
use python_lite.Base.{
  ℕ, suc, ◌+◌, ◌≡◌, ◌⊎◌, inl, inr, Bool-cases, ◌↔◌, refl, sym, ap, ◌∙◌, Bool, true, false, not,
  ◌&&◌, ◌||◌, List, [], ◌∷◌, some, arith, ==_iff, length,
}
use python_lite.Gc.Sets.{has, has-upset_add, count_in-length}
use python_lite.Gc.Heap.{Heap, Roots, roots_of, is_container}
use python_lite.Gc.Collect.{Colours, sweep_one, sweep, collect, finish, move_all, mark_loop}
use python_lite.Gc.Marking.{
  Live, root, child, IsFresh, Marks, Marks-roots, mark_loop-Marks, true-false, not_true,
}
use python_lite.Gc.Moving.{NoneFresh, move_all-Moved}

module _ (heap : Heap) (same_str : ℕ → ℕ → Bool) where
  abbrev pub can_free : ℕ → Bool
  can_free x = (heap x).flags.can_free

  abbrev pub static : ℕ → Bool
  static x = (heap x).flags.static

  -- What the sweep over `objs` does to the sets.
  pub record Swept (objs : List ℕ) (gc gc' : Colours) : Type 0 where
    pub black : (x : ℕ) → has gc'.black x ≡ (has gc.black x || (has objs x && not (can_free x)))
    pub freed :
        (x : ℕ)
        → has gc'.freed x ≡ (has gc.freed x || (has objs x && (can_free x && not (static x))))
    pub grey : gc'.grey ≡ gc.grey

  sweep_one-Swept : (gc : Colours) (obj : ℕ) → Swept (obj ∷ []) gc (sweep_one heap same_str gc obj)
  unfolding sweep_one
  sweep_one-Swept gc obj = record {
    black = λ x. ground (arith, has-upset_add gc.black obj x, ==_iff obj x);
    freed = λ x. ground (arith, ==_iff obj x);
    grey = ground arith;
  }

  pub sweep-Swept : (objs : List ℕ) (gc : Colours) → Swept objs gc (sweep heap same_str gc objs)
  unfolding sweep
  sweep-Swept [] gc = record { black = λ x. ground arith; freed = λ x. ground arith; grey = refl }
  sweep-Swept (obj ∷ objs) gc =
      let one = sweep_one-Swept gc obj in
      let more = sweep-Swept objs (sweep_one heap same_str gc obj) in
      record {
        black = λ x. ground (arith, one.black x, more.black x);
        freed = λ x. ground (arith, one.freed x, more.freed x);
        grey = more.grey ∙ one.grey;
      }

  -- What a collection of `start` with these roots does with the object at `x`: it stays if it is
  -- managed and live or not to be freed, or if it is the iterator made for a live container; and it
  -- is freed if it is managed, not live, to be freed and not static.
  pub record Fate (iter_at : ℕ → ℕ) (roots : List ℕ) (start done : Colours) (x : ℕ) : Type 0 where
    pub kept : (has done.white x ≡ true) ↔ (
        ((has start.white x ≡ true) × (Live heap roots start.white x ⊎ (can_free x ≡ false)))
        ⊎ ((u : ℕ) × Live heap roots start.white u
            × (is_container (heap u).kind ≡ true)
            × (x ≡ iter_at u)))
    pub released : (has done.freed x ≡ true) ↔ (
        (has start.white x ≡ true)
        × (¬ Live heap roots start.white x)
        × (can_free x ≡ true)
        × (static x ≡ false))

module _ (heap : Heap) (same_str : ℕ → ℕ → Bool) (iter_at : ℕ → ℕ) (fresh : ℕ → Bool)
    (new : IsFresh heap iter_at fresh) (roots : List ℕ) (unrooted : NoneFresh fresh roots)
    (start : Colours) (unmanaged : NoneFresh fresh start.white) where
  -- The invariant of the marking, for what the collection starts from.
  abbrev Marked : Colours → Type 0
  Marked = Marks heap iter_at fresh new roots unrooted start unmanaged

  -- With no grey object left, the live objects are the black ones.
  Live-black :
      (gc : Colours)
      → Marked gc
      → gc.grey ≡ []
      → {x : ℕ} → Live heap roots start.white x
      → has gc.black x ≡ true
  Live-black gc m e (root {x} r w) = ground (arith, m.covers x (unmanaged x w), m.rooted x r)
  Live-black gc m e (child {u} {v} l c w) =
      let black = Live-black gc m e l in
      ground (arith, m.covers v (unmanaged v w), m.closed u v black c)

  abbrev after_sweep : Colours → Colours
  after_sweep gc =
      let swept = sweep heap same_str gc gc.white in
      record swept { white = swept.black; black = [] }

  -- An object that was there before the collection.
  Fate-old :
      (gc : Colours) (x : ℕ)
      → start.freed ≡ []
      → Marked gc
      → gc.grey ≡ []
      → fresh x ≡ false
      → Fate heap same_str iter_at roots start (after_sweep gc) x
  Fate-old gc x none_freed m e o =
      let s = sweep-Swept heap same_str gc.white gc in
      let covers = m.covers x o in
      let live_black = λ (l : Live heap roots start.white x). Live-black gc m e l in
      record {
        kept = (
          λ d. inl (elim (Bool-cases (has gc.black x)) [
            | inl was ↦ (ground (arith, covers), inl (m.sound x (ground arith)))
            | inr other ↦ (ground (arith, covers, s.black x), inr (ground (arith, s.black x)))
          ]),
          λ k. elim k [
            | inl (w, inl l) ↦ ground (arith, live_black l, s.black x)
            | inl (w, inr c) ↦ ground (arith, covers, s.black x)
            | inr (u, l, c, at) ↦ absurd (true-false (sym (new.made u) ∙ ap fresh (sym at) ∙ o))
          ],
        );
        released = (
          λ d. (
            ground (arith, covers, s.freed x, m.freed),
            λ l. (let black = live_black l in ground (arith, m.apart x, s.freed x, m.freed)),
            ground (arith, s.freed x, m.freed),
            ground (arith, s.freed x, m.freed),
          ),
          λ (w, dead, c, t). elim (Bool-cases (has gc.black x)) [
            | inl was ↦ absurd (dead (m.sound x (ground arith)))
            | inr other ↦ ground (arith, covers, s.freed x)
          ],
        );
      }

  -- What was made while it ran.
  Fate-made :
      (gc : Colours) (x : ℕ)
      → start.freed ≡ []
      → Marked gc
      → gc.grey ≡ []
      → fresh x ≡ true
      → Fate heap same_str iter_at roots start (after_sweep gc) x
  Fate-made gc x none_freed m e f =
      let s = sweep-Swept heap same_str gc.white gc in
      let kept = new.kept x f in
      let not_black : has gc.black x ≡ false =
        not_true (λ b. true-false (sym f ∙ m.old x (ground arith))) in
      let not_managed : has start.white x ≡ false =
        not_true (λ w. true-false (sym f ∙ unmanaged x w)) in
      record {
        kept = (
          λ d.
              let (u, b, c, at) = m.made x f (ground (arith, s.black x)) in
              inr (u, m.sound u (ground arith), c, at),
          λ k. elim k [
            | inl (w, l) ↦ absurd (true-false (sym w ∙ not_managed))
            | inr (u, l, c, at) ↦
                let white : has gc.white x ≡ true = rw at (m.iterators u (Live-black gc m e l) c) in
                ground (arith, s.black x)
          ],
        );
        released = (
          λ d. absurd (ground (arith, s.freed x, m.freed)),
          λ (w, dead, c, t). absurd (true-false (sym w ∙ not_managed)),
        );
      }

  Fate-swept :
      (gc : Colours) (x : ℕ)
      → start.freed ≡ []
      → Marked gc
      → gc.grey ≡ []
      → Fate heap same_str iter_at roots start (after_sweep gc) x
  Fate-swept gc x none_freed m e = elim (Bool-cases (fresh x)) [
    | inl f ↦ Fate-made gc x none_freed m e f
    | inr o ↦ Fate-old gc x none_freed m e o
  ]

  -- The end of the marking of a collection from a state between two collections.
  pub marked :
      (pick : ℕ → ℕ)
      → start.grey ≡ []
      → start.black ≡ []
      → (m : Colours) × (mark_loop heap iter_at pick
            (suc (length start.white + length start.grey))
            (move_all start roots)
          ≡ some m)
        × (m.grey ≡ [])
        × Marked m
  marked pick g b =
      let moved = move_all-Moved fresh roots start unrooted in
      mark_loop-Marks heap iter_at fresh new roots unrooted start unmanaged pick
        (suc (length start.white + length start.grey)) (move_all start roots)
        (omega (arith, moved.smaller, count_in-length fresh start.white))
        (Marks-roots heap iter_at fresh new roots unrooted start unmanaged (move_all start roots) g
          b moved)

module _ (heap : Heap) (same_str : ℕ → ℕ → Bool) (iter_at : ℕ → ℕ) (fresh : ℕ → Bool) where
  -- A collection from a state between two collections, with any order of the grey set, where the
  -- iterators that it makes are at addresses that no managed object has, no root is and no object
  -- holds: it ends, with no grey and no black object; of each object it keeps the managed ones that
  -- are live or not to be freed, and frees those, and only those, that are managed, not live, to be
  -- freed and not static; and besides it keeps an iterator for each live list, set and tuple, and
  -- nothing else.
  pub collect-Fate :
      (pick : ℕ → ℕ) (roots : Roots) (gc : Colours)
      → IsFresh heap iter_at fresh
      → NoneFresh fresh (roots_of roots)
      → NoneFresh fresh gc.white
      → gc.grey ≡ []
      → gc.black ≡ []
      → gc.freed ≡ []
      → (done : Colours) × (collect heap iter_at pick same_str roots gc ≡ some done)
        × (done.grey ≡ [])
        × (done.black ≡ [])
        × ((x : ℕ) → Fate heap same_str iter_at (roots_of roots) gc done x)
  unfolding collect
  collect-Fate pick roots gc new unrooted unmanaged g b f =
      let (m, runs, over, good) =
        marked heap same_str iter_at fresh new (roots_of roots) unrooted gc unmanaged pick g b in
      let swept = sweep heap same_str m m.white in
      (
        record swept { white = swept.black; black = [] },
        ap (finish heap same_str) runs,
        (sweep-Swept heap same_str m.white m).grey ∙ over,
        refl,
        λ x.
            Fate-swept heap same_str iter_at fresh new (roots_of roots) unrooted gc unmanaged m x f
              good over,
      )
