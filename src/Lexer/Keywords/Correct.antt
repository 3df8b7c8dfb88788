-- ===== src/Lexer/Keywords/Correct.antt =====
-- `read_kw_or_id` against the table of token names.
use Prim.Native.String.{String}
use mathlib.Core.Bool.{and-eq-true_iff}
use mathlib.Core.Option
use mathlib.Core.Path.{subst}
use python_lite.Base.{
  ℕ, zero, suc, ◌+◌, ◌≤◌, ◌<◌, ◌≡◌, ◌≢◌, refl, sym, ◌∙◌, ◌↔◌, inl, inr, List, [], ◌∷◌, Option, none,
  some, arith, ◌==◌, if◌then◌else◌, Bool-cases, ==_iff, codes, length, Bool, true, false, ◌&&◌,
}
use python_lite.Lexer.Token.{
  get_token_name, tk_name, tk_kw_as, tk_kw_and, tk_kw_assert, tk_kw_break, tk_kw_class,
  tk_kw_continue, tk_kw_except, tk_kw_for, tk_kw_from, tk_kw_finally, tk_kw_global, tk_kw_import,
  tk_kw_lambda, tk_kw_not, tk_kw_nonlocal, tk_kw_or, tk_kw_pass, tk_kw_raise, tk_kw_return,
  tk_kw_try, tk_kw_with, tk_kw_while, tk_kw_yield, tk_kw_false, tk_kw_none, tk_kw_true,
}
use python_lite.Lexer.Keywords.{
  kw_next, switch_de, switch_el, switch_i, kw_then, kw_switch, read_kw_or_id,
}
use python_lite.Lexer.Keywords.Switches.{
  Named, Spells, if_eq, sized, switch_de-Spells, switch_el-Spells, switch_i-Spells, kw_then-Spells,
}

-- From the letter of a case to the character that was read.
module _ (first : ℕ) (p : List ℕ) where
  at_letter : (c t : ℕ) → first ≡ c → Spells (c ∷ p) t → Spells (first ∷ p) t
  at_letter c t q s = subst (λ z. Spells (z ∷ p) t) (sym q) s

  letter_d :
      (size : ℕ)
      → size ≡ suc (length p)
      → first ≡ b'd'
      → Spells (first ∷ p) (if size == 3 then kw_then b'e' switch_de p else tk_name)
  letter_d size hs q =
      if_eq (Spells (first ∷ p)) size 3
        (λ w.
          at_letter b'd' _ q
            (kw_then-Spells b'd' b'e' switch_de p 1 (omega arith) switch_de-Spells))
        (inl refl)

  letter_e :
      (size : ℕ)
      → size ≡ suc (length p)
      → first ≡ b'e'
      → Spells (first ∷ p) (
          if size == 4
          then kw_then b'l' switch_el p
          else if size == 6
          then kw_next (codes "xcept") tk_kw_except p
          else tk_name)
  unfolding Named
  letter_e size hs q =
      if_eq (Spells (first ∷ p)) size 4
        (λ w.
          at_letter b'e' _ q
            (kw_then-Spells b'e' b'l' switch_el p 2 (omega arith) switch_el-Spells))
        (sized first p size 6 (codes "xcept") tk_kw_except b'e' hs refl q
          (omega arith, omega arith, refl) (inl refl))

  letter_i :
      (size : ℕ)
      → size ≡ suc (length p)
      → first ≡ b'i'
      → Spells (first ∷ p) (
          if size == 2
          then switch_i p
          else if size == 6
          then kw_next (codes "mport") tk_kw_import p
          else tk_name)
  unfolding Named
  letter_i size hs q =
      if_eq (Spells (first ∷ p)) size 2 (λ w. at_letter b'i' _ q (switch_i-Spells p (omega arith)))
        (sized first p size 6 (codes "mport") tk_kw_import b'i' hs refl q
          (omega arith, omega arith, refl) (inl refl))

  kw_switch-Spells :
      (size : ℕ) → size ≡ suc (length p) → Spells (first ∷ p) (kw_switch first p size)
  unfolding kw_switch Named
  kw_switch-Spells size hs =
      (if_eq (Spells (first ∷ p)) first b'a'
        (λ q.
          sized first p size 2 (codes "s") tk_kw_as b'a' hs refl q (omega arith, omega arith, refl)
            (sized first p size 3 (codes "nd") tk_kw_and b'a' hs refl q
              (omega arith, omega arith, refl)
              (sized first p size 6 (codes "ssert") tk_kw_assert b'a' hs refl q
                (omega arith, omega arith, refl) (inl refl))))
        (if_eq (Spells (first ∷ p)) first b'b'
          (λ q.
            sized first p size 5 (codes "reak") tk_kw_break b'b' hs refl q
              (omega arith, omega arith, refl) (inl refl))
          (if_eq (Spells (first ∷ p)) first b'c'
            (λ q.
              sized first p size 5 (codes "lass") tk_kw_class b'c' hs refl q
                (omega arith, omega arith, refl)
                (sized first p size 8 (codes "ontinue") tk_kw_continue b'c' hs refl q
                  (omega arith, omega arith, refl) (inl refl)))
            (if_eq (Spells (first ∷ p)) first b'd' (letter_d size hs) (
              if_eq (Spells (first ∷ p)) first b'e' (letter_e size hs) (
                if_eq (Spells (first ∷ p)) first b'f'
                  (λ q.
                    sized first p size 3 (codes "or") tk_kw_for b'f' hs refl q
                      (omega arith, omega arith, refl)
                      (sized first p size 4 (codes "rom") tk_kw_from b'f' hs refl q
                        (omega arith, omega arith, refl)
                        (sized first p size 7 (codes "inally") tk_kw_finally b'f' hs refl q
                          (omega arith, omega arith, refl) (inl refl))))
                  (if_eq (Spells (first ∷ p)) first b'g'
                    (λ q.
                      sized first p size 6 (codes "lobal") tk_kw_global b'g' hs refl q
                        (omega arith, omega arith, refl) (inl refl))
                    (if_eq (Spells (first ∷ p)) first b'i' (letter_i size hs) (
                      if_eq (Spells (first ∷ p)) first b'l'
                        (λ q.
                          sized first p size 6 (codes "ambda") tk_kw_lambda b'l' hs refl q
                            (omega arith, omega arith, refl) (inl refl))
                        (if_eq (Spells (first ∷ p)) first b'n'
                          (λ q.
                            sized first p size 3 (codes "ot") tk_kw_not b'n' hs refl q
                              (omega arith, omega arith, refl)
                              (sized first p size 8 (codes "onlocal") tk_kw_nonlocal b'n' hs refl q
                                (omega arith, omega arith, refl) (inl refl)))
                          (if_eq (Spells (first ∷ p)) first b'o'
                            (λ q.
                              sized first p size 2 (codes "r") tk_kw_or b'o' hs refl q
                                (omega arith, omega arith, refl) (inl refl))
                            (if_eq (Spells (first ∷ p)) first b'p'
                              (λ q.
                                sized first p size 4 (codes "ass") tk_kw_pass b'p' hs refl q
                                  (omega arith, omega arith, refl) (inl refl))
                              (if_eq (Spells (first ∷ p)) first b'r'
                                (λ q.
                                  sized first p size 5 (codes "aise") tk_kw_raise b'r' hs refl q
                                    (omega arith, omega arith, refl)
                                    (sized first p size 6 (codes "eturn") tk_kw_return b'r' hs refl
                                      q (omega arith, omega arith, refl) (inl refl)))
                                (if_eq (Spells (first ∷ p)) first b't'
                                  (λ q.
                                    sized first p size 3 (codes "ry") tk_kw_try b't' hs refl q
                                      (omega arith, omega arith, refl) (inl refl))
                                  (if_eq (Spells (first ∷ p)) first b'w'
                                    (λ q.
                                      sized first p size 4 (codes "ith") tk_kw_with b'w' hs refl q
                                        (omega arith, omega arith, refl)
                                        (sized first p size 5 (codes "hile") tk_kw_while b'w' hs
                                          refl q (omega arith, omega arith, refl) (inl refl)))
                                    (if_eq (Spells (first ∷ p)) first b'y'
                                      (λ q.
                                        sized first p size 5 (codes "ield") tk_kw_yield b'y' hs refl
                                          q (omega arith, omega arith, refl) (inl refl))
                                      (if_eq (Spells (first ∷ p)) first b'F'
                                        (λ q.
                                          sized first p size 5 (codes "alse") tk_kw_false b'F' hs
                                            refl q (omega arith, omega arith, refl) (inl refl))
                                        (if_eq (Spells (first ∷ p)) first b'N'
                                          (λ q.
                                            sized first p size 4 (codes "one") tk_kw_none b'N' hs
                                              refl q (omega arith, omega arith, refl) (inl refl))
                                          (if_eq (Spells (first ∷ p)) first b'T'
                                            (λ q.
                                              sized first p size 4 (codes "rue") tk_kw_true b'T' hs
                                                refl q (omega arith, omega arith, refl) (inl refl))
                                            (inl refl))))))))))))))))))))

read_kw_or_id-Spells : (s : List ℕ) → Spells s (read_kw_or_id s)
unfolding read_kw_or_id
read_kw_or_id-Spells [] = inl refl
read_kw_or_id-Spells (first ∷ p) = kw_switch-Spells first p (suc (length p)) refl

-- Every row of the table is recognised.
recognised : ℕ → Option String → Bool
unfolding read_kw_or_id
recognised t none = false
recognised t (some name) = read_kw_or_id (codes name) == t

rows : ℕ → ℕ → Bool
unfolding get_token_name recognised
rows zero t = true
rows (suc n) t = recognised t (get_token_name t) && rows n (suc t)

rows-recognised :
    (n t k : ℕ) → rows n t ≡ true → t ≤ k → k < t + n → recognised k (get_token_name k) ≡ true
unfolding rows
rows-recognised zero t k h lo hi = absurd (omega arith)
rows-recognised (suc n) t k h lo hi =
    let (here, later) = (and-eq-true_iff _ _).0 h in
    elim (Bool-cases (t == k)) [
      | inl e ↦ subst (λ z. recognised z (get_token_name z) ≡ true) ((==_iff t k).0 e) here
      | inr e ↦ rows-recognised n (suc t) k later (ground arith) (omega arith)
    ]

rows_all : rows 33 138 ≡ true
unfolding rows
rows_all = refl

recognised-named :
    (t : ℕ) (o : Option String) (s : List ℕ)
    → recognised t o ≡ true
    → Option.map codes o ≡ some s
    → read_kw_or_id s ≡ t
recognised-named t none s h e = unfold recognised in cc
recognised-named t (some name) s h e =
    let same : codes name ≡ s = cc in rw (← same) ((==_iff _ t).0 (unfold recognised in h))

-- For every text `s` and every token `t` but the plain name: the nested switches return `t`
-- exactly when `t` is one of the 33 keywords and the table of token names spells it `s`.
pub read_kw_or_id-table : (s : List ℕ) (t : ℕ) → t ≢ tk_name → (read_kw_or_id s ≡ t) ↔ Named t s
unfolding Named
read_kw_or_id-table s t ne = (there, back)
  where
    there : read_kw_or_id s ≡ t → Named t s
    there e = elim (read_kw_or_id-Spells s) [
      | inl plain ↦ absurd (ne (sym e ∙ plain))
      | inr named ↦ subst (λ z. Named z s) e named
    ]

    back : Named t s → read_kw_or_id s ≡ t
    back (lo, hi, e) =
        recognised-named t (get_token_name t) s (rows-recognised 33 138 t rows_all lo (omega arith))
          e
