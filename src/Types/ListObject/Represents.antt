-- ===== src/Types/ListObject/Represents.antt =====
-- types/common/list.c: the items a list object holds, and the operations as operations on them.
use python_lite.Base.{
  ℕ, zero, suc, ◌+◌, ◌-◌, ◌*◌, ◌≤◌, ◌<◌, ◌≡◌, refl, ap, ◌∙◌, List, [], ◌∷◌, ◌++◌, map, true, Option,
  none, some, arith, leb, ◌==◌, length, length-append, if_cases, if_true,
}
use python_lite.Types.Slots.{
  replicate, take, drop, grow, store, write, store-append, length-replicate, length-drop,
}
use python_lite.Types.ListObject.{
  ListObject, reserve, append_grown, list_append, extend_grown, list_extend, resized, stored,
}
use mathlib.Core.List.{append_assoc}

module _ {V : Type 0} where
  -- The array holds the items `xs` and then the `spare` slots of the capacity.
  pub record Holds (l : ListObject V) (xs : List V) (spare : List (Option V)) : Type 0 where
    pub slots : l.ob_val ≡ map some xs ++ spare
    pub size : l.ob_size ≡ length xs
    pub capacity : l.ob_maxsize ≡ length xs + length spare

  abbrev pub Represents : ListObject V → List V → Type 0
  Represents l xs = (spare : List (Option V)) × Holds l xs spare

  pub length-items :
      (xs : List V) (spare : List (Option V))
      → length (map some xs ++ spare) ≡ length xs + length spare
  length-items [] spare = omega arith
  length-items (x ∷ xs) spare = omega (arith, length-items xs spare)

  pub take-items :
      (xs : List V) (spare : List (Option V))
      → take (length xs) (map some xs ++ spare) ≡ map some xs
  take-items [] spare = refl
  take-items (x ∷ xs) spare = ap (some x ∷◌) (take-items xs spare)

  pub drop-items :
      (xs : List V) (m n : ℕ) (spare : List (Option V))
      → m ≡ length xs + n
      → drop m (map some xs ++ spare) ≡ drop n spare
  drop-items [] m n spare e = ap (λ k. drop k spare) (e ∙ omega arith)
  drop-items (x ∷ xs) zero n spare e = absurd (omega arith)
  drop-items (x ∷ xs) (suc m) n spare e = drop-items xs m n spare (omega arith)

  pub append_items :
      (xs ys : List V) (spare : List (Option V))
      → map some xs ++ (map some ys ++ spare) ≡ map some (xs ++ ys) ++ spare
  append_items [] ys spare = refl
  append_items (x ∷ xs) ys spare = ap (some x ∷◌) (append_items xs ys spare)

  grow-items :
      (n : ℕ) (xs : List V) (spare : List (Option V))
      → grow n (map some xs ++ spare)
        ≡ map some xs ++ (spare ++ replicate (n - (length xs + length spare)) none)
  unfolding grow
  grow-items n xs spare = rw (length-items xs spare, append_assoc (map some xs) spare)

  reserve-Holds :
      (n : ℕ) (l : ListObject V) (xs : List V) (spare : List (Option V))
      → Holds l xs spare
      → length xs + length spare ≤ n
      → Holds (reserve n l) xs (spare ++ replicate (n - (length xs + length spare)) none)
  reserve-Holds n l xs spare h le = record {
    slots = ap (grow n) h.slots ∙ grow-items n xs spare;
    size = h.size;
    capacity = length_spare n (length xs) spare le;
  }
    where
      length_spare :
          (n k : ℕ) (spare : List (Option V))
          → k + length spare ≤ n
          → n ≡ k + length (spare ++ replicate (n - (k + length spare)) none)
      length_spare n k spare le =
          let o : Option V = none in
          let e = length-append spare (replicate (n - (k + length spare)) o) in
          let r = length-replicate (n - (k + length spare)) o in omega arith

  -- `Room l xs n`: the list holds `xs` and has `n` spare slots at least.
  abbrev Room : ListObject V → List V → ℕ → Type 0
  Room l xs n = (spare : List (Option V)) × Holds l xs spare × (n ≤ length spare)

  -- A reserve of at least `n` more slots than the items take.
  reserve-Room :
      (m n : ℕ) (l : ListObject V) (xs : List V)
      → (r : Represents l xs) → length xs + length (r.0) ≤ m
      → length xs + n ≤ m
      → Room (reserve m l) xs n
  reserve-Room m n l xs (spare, h) le room =
      let g = reserve-Holds m l xs spare h le in
      let c : m ≡ length xs + length (spare ++ replicate (m - (length xs + length spare)) none) =
        g.capacity in
      (spare ++ replicate (m - (length xs + length spare)) none, g, omega arith)

  append_grown-Room :
      (l : ListObject V) (xs : List V) → Represents l xs → Room (append_grown l) xs 1
  append_grown-Room l xs (spare, h) =
      let z = h.size in
      let c = h.capacity in
      if_cases (λ g. Room g xs 1) (leb l.ob_maxsize l.ob_size)
        (λ e.
          let le : l.ob_maxsize ≤ l.ob_size = ground arith in
          if_cases (λ m. Room (reserve m l) xs 1) (l.ob_maxsize == 0)
            (λ e0.
              let m0 : l.ob_maxsize ≡ 0 = ground arith in
              reserve-Room 4 1 l xs (spare, h) (omega arith) (omega arith))
            (λ e0.
              let m0 : 0 < l.ob_maxsize = ground arith in
              reserve-Room (l.ob_maxsize * 2) 1 l xs (spare, h) (omega arith) (omega arith)))
        (λ e. let lt : l.ob_size < l.ob_maxsize = ground arith in (spare, h, omega arith))

  stored-Represents :
      (l : ListObject V) (xs : List V) (v : V)
      → Room l xs 1
      → (r : ListObject V × ℕ) × (stored l (store l.ob_val l.ob_size (some v)) ≡ some r)
        × Represents (r.0) (xs ++ v ∷ [])
        × (r.1 ≡ length xs)
  stored-Represents l xs v ([], h, le) = absurd (omega arith)
  stored-Represents l xs v (s ∷ spare, h, le) =
      let z = h.size in
      let c = h.capacity in
      let e = length-append xs (v ∷ []) in
      let eq : store l.ob_val l.ob_size (some v) ≡ some (map some xs ++ some v ∷ spare) =
        ap (λ a. store a l.ob_size (some v)) h.slots
        ∙ store-append xs s spare (some v) l.ob_size z in
      (
        (
          record l { ob_val = map some xs ++ some v ∷ spare; ob_size = l.ob_size + 1 },
          l.ob_size + 1 - 1,
        ),
        ap (stored l) eq,
        (
          spare,
          record {
            slots = append_items xs (v ∷ []) spare;
            size = omega arith;
            capacity = omega arith;
          },
        ),
        omega arith,
      )

  pub length-map-some : (xs : List V) → length (map {B = Option V} some xs) ≡ length xs
  length-map-some [] = refl
  length-map-some (x ∷ xs) = ap suc (length-map-some xs)

  -- `write` into the spare slots after the items.
  pub write-items :
      (xs ys : List V) (spare : List (Option V)) (k : ℕ)
      → k ≡ length xs
      → length ys ≤ length spare
      → write (map some xs ++ spare) k (map some ys)
        ≡ some (map some (xs ++ ys) ++ drop (length ys) spare)
  unfolding write
  write-items xs ys spare k e le =
      let a = map some xs ++ spare in
      let o = map {B = Option V} some ys in
      let n = length-map-some ys in
      let m = length-items xs spare in
      let fits : leb (k + length o) (length a) ≡ true = ground arith in
      if_true (leb (k + length o) (length a)) (some (take k a ++ (o ++ drop (k + length o) a))) none
        fits
      ∙ ap some (
          ap (λ j. take j a ++ (o ++ drop (k + length o) a)) e
          ∙ ap (λ p. p ++ (o ++ drop (k + length o) a)) (take-items xs spare)
          ∙ ap (λ d. map some xs ++ (o ++ d))
              (drop-items xs (k + length o) (length ys) spare (omega arith))
          ∙ append_items xs ys (drop (length ys) spare))

  -- Appending to a list that holds `xs` is in bounds, leaves a list that holds `xs` and the new
  -- item, and returns the new item's index.
  pub list_append-Represents :
      (l : ListObject V) (xs : List V) (v : V)
      → Represents l xs
      → (r : ListObject V × ℕ) × (list_append l v ≡ some r)
        × Represents (r.0) (xs ++ v ∷ [])
        × (r.1 ≡ length xs)
  unfolding list_append
  list_append-Represents l xs v h =
      stored-Represents (append_grown l) xs v (append_grown-Room l xs h)

  extend_grown-Room :
      (l o : ListObject V) (xs ys : List V)
      → Represents l xs
      → o.ob_size ≡ length ys
      → Room (extend_grown l o) xs (length ys)
  extend_grown-Room l o xs ys (spare, h) e =
      let z = h.size in
      let c = h.capacity in
      if_cases (λ g. Room g xs (length ys)) (leb l.ob_maxsize (l.ob_size + o.ob_size))
        (λ t.
          let le : l.ob_maxsize ≤ l.ob_size + o.ob_size = ground arith in
          reserve-Room (l.ob_size + o.ob_size) (length ys) l xs (spare, h) (omega arith)
            (omega arith))
        (λ t.
          let lt : l.ob_size + o.ob_size < l.ob_maxsize = ground arith in (spare, h, omega arith))

  resized-Represents :
      (l o : ListObject V) (xs ys : List V)
      → Room l xs (length ys)
      → Represents o ys
      → (r : ListObject V) × (resized l
            (l.ob_size + o.ob_size)
            (write l.ob_val l.ob_size (take o.ob_size o.ob_val))
          ≡ some r)
        × Represents r (xs ++ ys)
  resized-Represents l o xs ys (spare, h, le) (rest, g) =
      let z = h.size in
      let c = h.capacity in
      let z' = g.size in
      let e = length-append xs ys in
      let d = length-drop (length ys) spare in
      let t : take o.ob_size o.ob_val ≡ map some ys = rw (z', g.slots, take-items ys rest) in
      let eq : write l.ob_val l.ob_size (take o.ob_size o.ob_val)
          ≡ some (map some (xs ++ ys) ++ drop (length ys) spare) =
        ap (write l.ob_val l.ob_size) t
        ∙ ap (λ a. write a l.ob_size (map some ys)) h.slots
        ∙ write-items xs ys spare l.ob_size z le in
      (
        record l {
          ob_val = map some (xs ++ ys) ++ drop (length ys) spare;
          ob_size = l.ob_size + o.ob_size;
        },
        ap (resized l (l.ob_size + o.ob_size)) eq,
        (
          drop (length ys) spare,
          record { slots = refl; size = omega arith; capacity = omega arith },
        ),
      )

  -- Extending a list that holds `xs` by one that holds `ys` is in bounds and leaves a list that
  -- holds `xs` and then `ys`.
  pub list_extend-Represents :
      (l o : ListObject V) (xs ys : List V)
      → Represents l xs
      → Represents o ys
      → (r : ListObject V) × (list_extend l o ≡ some r) × Represents r (xs ++ ys)
  unfolding list_extend
  list_extend-Represents l o xs ys h (rest, g) =
      resized-Represents (extend_grown l o) o xs ys (extend_grown-Room l o xs ys h g.size) (rest, g)
