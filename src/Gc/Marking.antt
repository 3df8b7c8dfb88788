-- ===== src/Gc/Marking.antt =====
-- The marking of `pylt_gc_collect`: what is black when it ends.
use mathlib.Core.Bool.{false≢true}
use python_lite.Base.{
  ℕ, zero, suc, ◌<◌, ◌≡◌, sym, ap, ◌∙◌, Bool, true, false, not, ◌&&◌, ◌||◌, List, [], ◌∷◌, Option,
  some, arith, ◌==◌, ==_iff, length, inl, inr, Bool-cases, List-cases,
}
use python_lite.Gc.Sets.{
  has, upset_add, take_at, has-upset_add, has-take_at, length-take_at, count_in-upset_add,
}
use python_lite.Gc.Heap.{Heap, children, is_container}
use python_lite.Gc.Collect.{Colours, gc_add, move_all, iter_new, blacken, mark_loop}
use python_lite.Gc.Moving.{size, NoneFresh, Moved, move_all-Moved}

pub true-false : ¬ (true ≡ false)
true-false e = false≢true (sym e)

pub not_true : {b : Bool} → ¬ (b ≡ true) → b ≡ false
not_true {b} h = elim (Bool-cases b) [ inl e ↦ absurd (h e) | inr e ↦ e ]

-- An object of the set `managed` is live if a root is its address, or if a live object hands its
-- address on.
pub data Live (heap : Heap) (roots managed : List ℕ) : ℕ → Type 0 where
  root : {x : ℕ} → has roots x ≡ true → has managed x ≡ true → Live heap roots managed x
  child :
      {u v : ℕ}
      → Live heap roots managed u
      → has (children (heap u).kind) v ≡ true
      → has managed v ≡ true
      → Live heap roots managed v

module _ (heap : Heap) (iter_at : ℕ → ℕ) (fresh : ℕ → Bool) where
  -- Where iterators are made there is no object before: they are at addresses other than NULL that
  -- are `fresh`, which no object holds, and the flags of an object that is new are 0.
  pub record IsFresh : Type 0 where
    pub made : (u : ℕ) → fresh (iter_at u) ≡ true
    pub not_null : (u : ℕ) → (iter_at u == 0) ≡ false
    pub unheld : (u : ℕ) → NoneFresh fresh (children (heap u).kind)
    pub kept : (x : ℕ) → fresh x ≡ true → (heap x).flags.can_free ≡ false

module _ (heap : Heap) (iter_at : ℕ → ℕ) (fresh : ℕ → Bool) (new : IsFresh heap iter_at fresh)
    (roots : List ℕ) (unrooted : NoneFresh fresh roots) (start : Colours)
    (unmanaged : NoneFresh fresh start.white) where
  -- The iterator at `x` was made for a black object.
  abbrev pub MadeFor : Colours → ℕ → Type 0
  MadeFor gc x =
      (u : ℕ) × (has gc.black u ≡ true) × (is_container (heap u).kind ≡ true) × (x ≡ iter_at u)

  -- The colours divide what was white; grey and black objects are live; no root, nor what a black
  -- object holds, is white; and the new white objects are the iterators of the black containers.
  pub record Marks (gc : Colours) : Type 0 where
    pub covers :
        (x : ℕ)
        → fresh x ≡ false
        → has start.white x ≡ (has gc.white x || (has gc.grey x || has gc.black x))
    pub apart : (x : ℕ) → has gc.white x ≡ true → (has gc.grey x || has gc.black x) ≡ false
    pub sound : (x : ℕ) → (has gc.grey x || has gc.black x) ≡ true → Live heap roots start.white x
    pub rooted : (x : ℕ) → has roots x ≡ true → has gc.white x ≡ false
    pub closed :
        (u v : ℕ)
        → has gc.black u ≡ true
        → has (children (heap u).kind) v ≡ true
        → has gc.white v ≡ false
    pub old : (x : ℕ) → (has gc.grey x || has gc.black x) ≡ true → fresh x ≡ false
    pub made : (x : ℕ) → fresh x ≡ true → has gc.white x ≡ true → MadeFor gc x
    pub iterators :
        (u : ℕ)
        → has gc.black u ≡ true
        → is_container (heap u).kind ≡ true
        → has gc.white (iter_at u) ≡ true
    pub str_cached : gc.str_cached ≡ start.str_cached
    pub freed : gc.freed ≡ start.freed

  pub Marks-roots :
      (gc : Colours) → start.grey ≡ [] → start.black ≡ [] → Moved fresh roots start gc → Marks gc
  Marks-roots gc g b m = record {
    covers = λ x o. ground (arith, m.white x, m.grey x, m.black);
    apart = λ x w. ground (arith, m.white x, m.grey x, m.black);
    sound = λ x d.
        Live.root (ground (arith, m.white x, m.grey x, m.black))
          (ground (arith, m.white x, m.grey x, m.black));
    rooted = λ x r. ground (arith, m.white x);
    closed = λ u v d c. ground (arith, m.black);
    old = λ x d. unmanaged x (ground (arith, m.white x, m.grey x, m.black));
    made = λ x f w. absurd (ground (arith, unmanaged x, m.white x));
    iterators = λ u d c. absurd (ground (arith, m.black));
    str_cached = m.str_cached;
    freed = m.freed;
  }

  other_address : (u x : ℕ) → fresh x ≡ false → (iter_at u == x) ≡ false
  other_address u x o =
      not_true (λ e. true-false (sym (new.made u) ∙ ap fresh ((==_iff (iter_at u) x).0 e) ∙ o))

  -- The iterator of the object `u`, if it is a container, is white.
  record Made (u : ℕ) (gc gc' : Colours) : Type 0 where
    white :
        (x : ℕ)
        → has gc'.white x ≡ (has gc.white x || (is_container (heap u).kind && iter_at u == x))
    grey : gc'.grey ≡ gc.grey
    black : gc'.black ≡ gc.black
    str_cached : gc'.str_cached ≡ gc.str_cached
    freed : gc'.freed ≡ gc.freed
    same_size : size fresh gc' ≡ size fresh gc

  iter_new-Made : (u : ℕ) (gc : Colours) → Made u gc (iter_new heap iter_at u gc)
  unfolding gc_add
  iter_new-Made u gc = record {
    white = λ x. ground (arith, new.not_null u, has-upset_add gc.white (iter_at u) x);
    grey = ground arith;
    black = ground arith;
    str_cached = ground arith;
    freed = ground arith;
    same_size =
        ground (arith, new.not_null u, count_in-upset_add fresh gc.white (iter_at u) (new.made u));
  }

  Marks-blacken :
      (gc : Colours) (g : ℕ) (grey : List ℕ) (i : ℕ)
      → gc.grey ≡ g ∷ grey
      → Marks gc
      → Marks (blacken heap iter_at ((take_at i g grey).0) ((take_at i g grey).1) gc)
  unfolding blacken
  Marks-blacken gc g grey i e h =
      let u = (take_at i g grey).0 in
      let rest = (take_at i g grey).1 in
      let kids = children (heap u).kind in
      let popped = record gc { grey = rest; black = upset_add gc.black u } in
      let n = iter_new-Made u popped in
      let m = move_all-Moved fresh kids (iter_new heap iter_at u popped) (new.unheld u) in
      let greys = λ (x : ℕ). ap (λ l. has l x) e ∙ has-take_at i g grey x in
      let blacks = λ (x : ℕ). has-upset_add gc.black u x in
      let unmade = λ (x : ℕ) (o : fresh x ≡ false). other_address u x o in
      let was_grey : (has gc.grey u || has gc.black u) ≡ true =
        ground (arith, greys u, ==_iff u u) in
      let alive : Live heap roots start.white u = h.sound u was_grey in
      let whites : (x : ℕ)
          → has (move_all (iter_new heap iter_at u popped) kids).white x ≡ (
              (has gc.white x || (is_container (heap u).kind && iter_at u == x))
              && not (has kids x)) =
        λ x. ground (arith, m.white x, n.white x) in
      let greyed : (x : ℕ)
          → has (move_all (iter_new heap iter_at u popped) kids).grey x
            ≡ (has rest x || (has gc.white x && has kids x)) =
        λ x. elim (Bool-cases (has kids x)) [
          | inl kid ↦
              let other = unmade x (new.unheld u x kid) in
              ground (arith, m.grey x, n.grey, n.white x)
          | inr not_kid ↦ ground (arith, m.grey x, n.grey, n.white x)
        ] in
      let blacked : (x : ℕ)
          → has (move_all (iter_new heap iter_at u popped) kids).black x
            ≡ (u == x || has gc.black x) =
        λ x. ap (λ l. has l x) (m.black ∙ n.black) ∙ blacks x in
      let older : (x : ℕ)
          → (has (move_all (iter_new heap iter_at u popped) kids).grey x
              || has (move_all (iter_new heap iter_at u popped) kids).black x)
            ≡ true
          → fresh x ≡ false =
        λ x d. elim (Bool-cases (has gc.grey x || has gc.black x)) [
          | inl was ↦ h.old x was
          | inr new_grey ↦ new.unheld u x (ground (arith, greys x, greyed x, blacked x))
        ] in
      record {
        covers = λ x o.
            let other = unmade x o in
            ground (arith, h.covers x o, greys x, whites x, greyed x, blacked x);
        apart = λ x w. elim (Bool-cases (fresh x)) [
          | inl f ↦ not_true (λ d. true-false (sym f ∙ older x d))
          | inr o ↦
              let other = unmade x o in
              ground (arith, h.apart x, greys x, whites x, greyed x, blacked x)
        ];
        sound = λ x d. elim (Bool-cases (has gc.grey x || has gc.black x)) [
          | inl was ↦ h.sound x was
          | inr new_grey ↦
              Live.child alive (ground (arith, greys x, greyed x, blacked x))
                (let o = older x d in ground (arith, h.covers x o, greys x, greyed x, blacked x))
        ];
        rooted =
            λ x r. let other = unmade x (unrooted x r) in ground (arith, h.rooted x r, whites x);
        closed = λ p v d c. elim (Bool-cases (u == p)) [
          | inl same ↦
              let kid : has kids v ≡ true = rw ((==_iff u p).0 same) c in ground (arith, whites v)
          | inr distinct ↦
              let was : has gc.black p ≡ true = ground (arith, blacked p) in
              let other = unmade v (new.unheld p v c) in
              ground (arith, h.closed p v was c, whites v)
        ];
        old = older;
        made = λ x f w. elim (Bool-cases (has gc.white x)) [
          | inl was ↦ let (p, d, c, at) = h.made x f was in (p, ground (arith, blacked p), c, at)
          | inr new_white ↦ (
            u,
            ground (arith, blacked u, ==_iff u u),
            ground (arith, whites x),
            sym ((==_iff (iter_at u) x).0 (ground (arith, whites x))),
          )
        ];
        iterators = λ p d c.
            let not_kid : has kids (iter_at p) ≡ false =
              not_true (λ k. true-false (sym (new.made p) ∙ new.unheld u (iter_at p) k)) in
            elim (Bool-cases (u == p)) [
              | inl same ↦
                  let eq = (==_iff u p).0 same in
                  let at : (iter_at u == iter_at p) ≡ true =
                    (==_iff (iter_at u) (iter_at p)).1 (ap iter_at eq) in
                  let con : is_container (heap u).kind ≡ true = rw eq c in
                  ground (arith, whites (iter_at p))
              | inr distinct ↦
                  let was : has gc.black p ≡ true = ground (arith, blacked p) in
                  ground (arith, h.iterators p was c, whites (iter_at p))
            ];
        str_cached = m.str_cached ∙ n.str_cached ∙ h.str_cached;
        freed = m.freed ∙ n.freed ∙ h.freed;
      }

  blacken-smaller :
      (gc : Colours) (g : ℕ) (grey : List ℕ) (i fuel : ℕ)
      → gc.grey ≡ g ∷ grey
      → size fresh gc < suc fuel
      → size fresh (blacken heap iter_at ((take_at i g grey).0) ((take_at i g grey).1) gc) < fuel
  unfolding blacken
  blacken-smaller gc g grey i fuel e lt =
      let u = (take_at i g grey).0 in
      let popped = record gc { grey = (take_at i g grey).1; black = upset_add gc.black u } in
      let n = iter_new-Made u popped in
      let m =
        move_all-Moved fresh (children (heap u).kind) (iter_new heap iter_at u popped)
          (new.unheld u) in
      omega (arith, m.smaller, n.same_size, length-take_at i g grey, ap length e)

  -- The loop ends, with no grey object left.
  pub mark_loop-Marks :
      (pick : ℕ → ℕ) (fuel : ℕ) (gc : Colours)
      → size fresh gc < fuel
      → Marks gc
      → (done : Colours) × (mark_loop heap iter_at pick fuel gc ≡ some done)
        × (done.grey ≡ [])
        × Marks done
  unfolding mark_loop
  mark_loop-Marks pick zero gc lt h = absurd (omega arith)
  mark_loop-Marks pick (suc fuel) gc lt h =
      let turn : List ℕ → Option Colours = λ l. elim l [
        | [] ↦ some gc
        | g ∷ grey ↦
            (let popped = take_at (pick fuel) g grey in
              mark_loop heap iter_at pick fuel (blacken heap iter_at (popped.0) (popped.1) gc))
      ] in
      elim (List-cases gc.grey) [
        | inl e ↦ (gc, ap turn e, e, h)
        | inr (g, grey, e) ↦
            (let (done, runs, over, marks) =
                mark_loop-Marks pick fuel
                  (blacken heap iter_at ((take_at (pick fuel) g grey).0)
                    ((take_at (pick fuel) g grey).1) gc)
                  (blacken-smaller gc g grey (pick fuel) fuel e lt)
                  (Marks-blacken gc g grey (pick fuel) e h) in
              (done, ap turn e ∙ runs, over, marks))
      ]
