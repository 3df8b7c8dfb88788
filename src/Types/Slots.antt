-- ===== src/Types/Slots.antt =====
-- An allocated array of object pointers: each slot is a pointer, or `none` for NULL and for what
-- was never written. A read or write outside the array is the fault `none` of an operation.
use python_lite.Base.{
  ℕ, zero, suc, ◌+◌, ◌-◌, ◌≤◌, ◌<◌, ◌≡◌, refl, ap, List, [], ◌∷◌, ◌++◌, map, Option, none, some,
  arith, leb, if◌then◌else◌, length, length-append, if_false, if_both, Bool, true, false, ltb, ◌&&◌,
}

module _ {ℓ} {A : Type ℓ} where
  abbrev pub take : ℕ → List A → List A
  take zero xs = []
  take (suc n) [] = []
  take (suc n) (x ∷ xs) = x ∷ take n xs

  abbrev pub drop : ℕ → List A → List A
  drop zero xs = xs
  drop (suc n) [] = []
  drop (suc n) (x ∷ xs) = drop n xs

  abbrev pub replicate : ℕ → A → List A
  replicate zero a = []
  replicate (suc n) a = a ∷ replicate n a

  pub length-take : (n : ℕ) (xs : List A) → n ≤ length xs → length (take n xs) ≡ n
  length-take zero xs h = refl
  length-take (suc n) [] h = absurd (omega arith)
  length-take (suc n) (x ∷ xs) h = ap suc (length-take n xs (omega arith))

  pub length-drop : (n : ℕ) (xs : List A) → length (drop n xs) ≡ length xs - n
  length-drop zero xs = omega arith
  length-drop (suc n) [] = omega arith
  length-drop (suc n) (x ∷ xs) = omega (arith, length-drop n xs)

  pub length-replicate : (n : ℕ) (a : A) → length (replicate n a) ≡ n
  length-replicate zero a = refl
  length-replicate (suc n) a = ap suc (length-replicate n a)

-- What a copy inside an array comes to: where the two ranges overlap C does not define it.
pub data Copied (V : Type 0) : Type 0 where
  copied : List (Option V) → Copied V
  overlaps : Copied V
  outside : Copied V

abbrev pub overlap : ℕ → ℕ → ℕ → Bool
overlap dst src n = ltb dst (src + n) && ltb src (dst + n)

module _ {V : Type 0} where
  -- `pylt_realloc` to `n` slots, no fewer than before.
  unfoldable pub grow : ℕ → List (Option V) → List (Option V)
  grow n slots = slots ++ replicate (n - length slots) none

  -- `a[i] = o`
  unfoldable pub store : List (Option V) → ℕ → Option V → Option (List (Option V))
  store [] i o = none
  store (s ∷ slots) zero o = some (o ∷ slots)
  store (s ∷ slots) (suc i) o = elim (store slots i o) [ none ↦ none | some r ↦ some (s ∷ r) ]

  -- `memcpy(a + dst, os, …)` from another array.
  unfoldable pub write : List (Option V) → ℕ → List (Option V) → Option (List (Option V))
  write slots dst os =
      if leb (dst + length os) (length slots)
      then some (take dst slots ++ (os ++ drop (dst + length os) slots))
      else none

  -- `memmove(a + dst, a + src, n * sizeof(…))`
  unfoldable pub move : List (Option V) → ℕ → ℕ → ℕ → Option (List (Option V))
  unfolding write
  move slots dst src n =
      if leb (src + n) (length slots) then write slots dst (take n (drop src slots)) else none

  abbrev pub as_copied : Bool → Option (List (Option V)) → Copied V
  as_copied b none = outside
  as_copied true (some val) = overlaps
  as_copied false (some val) = copied val

  -- `memcpy(a + dst, a + src, n * sizeof(…))`
  unfoldable pub copy : List (Option V) → ℕ → ℕ → ℕ → Copied V
  unfolding move
  copy slots dst src n = as_copied (overlap dst src n) (move slots dst src n)

  pub store-append :
      (xs : List V) (s : Option V) (rest : List (Option V)) (o : Option V) (i : ℕ)
      → i ≡ length xs
      → store (map some xs ++ s ∷ rest) i o ≡ some (map some xs ++ o ∷ rest)
  unfolding store
  store-append [] s rest o zero e = refl
  store-append [] s rest o (suc i) e = absurd (omega arith)
  store-append (x ∷ xs) s rest o zero e = absurd (omega arith)
  store-append (x ∷ xs) s rest o (suc i) e = rw (store-append xs s rest o i (omega arith))

  pub store_out :
      (slots : List (Option V)) (i : ℕ) (o : Option V) → length slots ≤ i → store slots i o ≡ none
  unfolding store
  store_out [] i o h = refl
  store_out (s ∷ slots) zero o h = absurd (omega arith)
  store_out (s ∷ slots) (suc i) o h = rw (store_out slots i o (omega arith))

  pub length-grow : (n : ℕ) (slots : List (Option V)) → length slots ≤ n → length (grow n slots) ≡ n
  unfolding grow
  length-grow n slots h =
      let o : Option V = none in
      let e = length-append slots (replicate (n - length slots) o) in
      let r = length-replicate (n - length slots) o in omega arith

  write_out :
      (slots os : List (Option V)) (dst : ℕ)
      → length slots < dst + length os
      → write slots dst os ≡ none
  unfolding write
  write_out slots os dst h =
      let over : leb (dst + length os) (length slots) ≡ false = ground arith in
      if_false (leb (dst + length os) (length slots))
        (some (take dst slots ++ (os ++ drop (dst + length os) slots))) none over

  move_out :
      (slots : List (Option V)) (dst src n : ℕ)
      → src + n ≤ length slots
      → length slots < dst + n
      → move slots dst src n ≡ none
  unfolding move
  move_out slots dst src n le lt =
      let d = length-drop src slots in
      let t = length-take n (drop src slots) (omega arith) in
      if_both (λ r. r ≡ none) (leb (src + n) (length slots))
        (write_out slots (take n (drop src slots)) dst (omega arith)) refl

  pub copy_out :
      (slots : List (Option V)) (dst src n : ℕ)
      → src + n ≤ length slots
      → length slots < dst + n
      → copy slots dst src n ≡ outside
  unfolding copy
  copy_out slots dst src n le lt =
      ap (as_copied (overlap dst src n)) (move_out slots dst src n le lt)
