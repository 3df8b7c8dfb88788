-- ===== src/Gc/Sets.antt =====
-- The sets of addresses `PyLiteUPSet`. The order of the hash table is not that of the code: a set
-- is the list of its members, and where the code takes the first slot that is used, the place of
-- the member that it finds is given from outside.
use python_lite.Base.{
  ℕ, zero, suc, ◌+◌, ◌≤◌, ◌≡◌, refl, Bool, true, false, not, ◌&&◌, ◌||◌, List, [], ◌∷◌, arith, ◌==◌,
  ==_iff, if◌then◌else◌, length, ap, ◌∙◌, Bool-cases, inl, inr,
}

abbrev pub has : List ℕ → ℕ → Bool
has [] x = false
has (y ∷ ys) x = y == x || has ys x

-- `upset_remove`
unfoldable pub upset_remove : List ℕ → ℕ → List ℕ
upset_remove [] x = []
upset_remove (y ∷ ys) x = let rest = upset_remove ys x in if y == x then rest else y ∷ rest

-- `upset_add`
unfoldable pub upset_add : List ℕ → ℕ → List ℕ
upset_add ys x = if has ys x then ys else x ∷ ys

-- `upset_pop`, of a set that is not empty: the member at a place and the others.
unfoldable pub take_at : ℕ → ℕ → List ℕ → ℕ × List ℕ
take_at zero x xs = (x, xs)
take_at (suc i) x [] = (x, [])
take_at (suc i) x (y ∷ ys) = let (z, rest) = take_at i y ys in (z, x ∷ rest)

pub has-upset_remove :
    (ys : List ℕ) (x z : ℕ) → has (upset_remove ys x) z ≡ (has ys z && not (x == z))
unfolding upset_remove
has-upset_remove [] x z = refl
has-upset_remove (y ∷ ys) x z = ground (arith, has-upset_remove ys x z)

pub has-upset_add : (ys : List ℕ) (x z : ℕ) → has (upset_add ys x) z ≡ (x == z || has ys z)
unfolding upset_add
has-upset_add ys x z = ground (arith, ==_iff x z)

pub has-take_at :
    (i x : ℕ) (xs : List ℕ) (z : ℕ)
    → has (x ∷ xs) z ≡ ((take_at i x xs).0 == z || has (take_at i x xs).1 z)
unfolding take_at
has-take_at zero x xs z = refl
has-take_at (suc i) x [] z = refl
has-take_at (suc i) x (y ∷ ys) z = ground (arith, has-take_at i y ys z)

pub length-take_at : (i x : ℕ) (xs : List ℕ) → length (take_at i x xs).1 ≡ length xs
unfolding take_at
length-take_at zero x xs = refl
length-take_at (suc i) x [] = refl
length-take_at (suc i) x (y ∷ ys) = omega (arith, length-take_at i y ys)

pub length-upset_remove : (ys : List ℕ) (x : ℕ) → length (upset_remove ys x) ≤ length ys
unfolding upset_remove
length-upset_remove [] x = omega arith
length-upset_remove (y ∷ ys) x = ground (arith, length-upset_remove ys x)

pub length-upset_remove_lt :
    (ys : List ℕ) (x : ℕ) → has ys x ≡ true → length (upset_remove ys x) + 1 ≤ length ys
unfolding upset_remove
length-upset_remove_lt [] x h = cc
length-upset_remove_lt (y ∷ ys) x h =
    ground (arith, length-upset_remove_lt ys x, length-upset_remove ys x)

pub length-upset_add : (ys : List ℕ) (x : ℕ) → length (upset_add ys x) ≤ length ys + 1
unfolding upset_add
length-upset_add ys x = ground arith

module _ (out : ℕ → Bool) where
  -- The number of members that are not `out`.
  abbrev pub count_in : List ℕ → ℕ
  count_in [] = 0
  count_in (y ∷ ys) = if out y then count_in ys else suc (count_in ys)

  pub count_in-length : (ys : List ℕ) → count_in ys ≤ length ys
  count_in-length [] = omega arith
  count_in-length (y ∷ ys) = ground (arith, count_in-length ys)

  count_in-upset_remove : (ys : List ℕ) (x : ℕ) → count_in (upset_remove ys x) ≤ count_in ys
  unfolding upset_remove
  count_in-upset_remove [] x = omega arith
  count_in-upset_remove (y ∷ ys) x = ground (arith, count_in-upset_remove ys x)

  pub count_in-upset_remove_lt :
      (ys : List ℕ) (x : ℕ)
      → has ys x ≡ true
      → out x ≡ false
      → count_in (upset_remove ys x) + 1 ≤ count_in ys
  unfolding upset_remove
  count_in-upset_remove_lt [] x h e = cc
  count_in-upset_remove_lt (y ∷ ys) x h e = elim (Bool-cases (y == x)) [
    | inl same ↦
        let at : out y ≡ false = ap out ((==_iff y x).0 same) ∙ e in
        ground (arith, count_in-upset_remove ys x)
    | inr other ↦ ground (arith, count_in-upset_remove_lt ys x)
  ]

  pub count_in-upset_add :
      (ys : List ℕ) (x : ℕ) → out x ≡ true → count_in (upset_add ys x) ≡ count_in ys
  unfolding upset_add
  count_in-upset_add ys x e = ground arith
