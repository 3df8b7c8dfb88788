-- ===== src/Lexer/Keywords/Switches.antt =====
-- The inner switches of `read_kw_or_id`: what each returns is spelled by the text.
use mathlib.Core.Option
use mathlib.Core.Path.{subst}
use python_lite.Base.{
  ℕ, suc, ◌≤◌, ◌≡◌, refl, sym, ◌⊎◌, inl, inr, List, [], ◌∷◌, some, arith, ◌==◌, if◌then◌else◌,
  Bool-cases, ==_iff, codes, length,
}
use python_lite.Lexer.Token.{
  get_token_name, tk_name, tk_kw_def, tk_kw_del, tk_kw_else, tk_kw_elif, tk_kw_if, tk_kw_in,
  tk_kw_is,
}
use python_lite.Lexer.Keywords.{kw_next, switch_de, switch_el, switch_i, kw_then}

-- The table names the keyword `t` by the text `s`.
unfoldable pub Named : ℕ → List ℕ → Type 0
unfolding get_token_name
Named t s = (138 ≤ t) × (t ≤ 170) × (Option.map codes (get_token_name t) ≡ some s)

-- A token that is not a plain name is the one that the table names `s`.
abbrev pub Spells : List ℕ → ℕ → Type 0
Spells s t = (t ≡ tk_name) ⊎ Named t s

pub if_eq {κ} :
    {A : Type 0} (P : A → Type κ) (a b : ℕ) {x y : A}
    → (a ≡ b → P x)
    → P y
    → P (if a == b then x else y)
if_eq P a b hx hy = elim (Bool-cases (a == b)) [
  | inl e ↦ rw e (hx ((==_iff a b).0 e))
  | inr e ↦ rw e hy
]

kw_next-Spells :
    (e : List ℕ) (t : ℕ) (p : List ℕ) (k : List ℕ → List ℕ)
    → length p ≡ length e
    → Spells (k e) t
    → Spells (k p) (kw_next e t p)
unfolding kw_next
kw_next-Spells [] t [] k h s = s
kw_next-Spells [] t (c ∷ p) k h s = absurd (omega arith)
kw_next-Spells (x ∷ e) t [] k h s = inl refl
kw_next-Spells (x ∷ e) t (c ∷ p) k h s =
    if_eq (Spells (k (c ∷ p))) c x
      (λ q.
        kw_next-Spells e t p (λ r. k (c ∷ r)) (omega arith)
          (subst (λ z. Spells (k (z ∷ e)) t) (sym q) s))
      (inl refl)

module _ (first : ℕ) (p : List ℕ) where
  -- A case of an inner switch on the size.
  pub sized :
      (size n : ℕ) (e : List ℕ) (t c : ℕ) {y : ℕ}
      → size ≡ suc (length p)
      → n ≡ suc (length e)
      → first ≡ c
      → Named t (c ∷ e)
      → Spells (first ∷ p) y
      → Spells (first ∷ p) (if size == n then kw_next e t p else y)
  sized size n e t c hs hn q h hy =
      if_eq (Spells (first ∷ p)) size n
        (λ w.
          kw_next-Spells e t p (λ r. first ∷ r) (omega arith)
            (inr (subst (λ z. Named t (z ∷ e)) (sym q) h)))
        hy

module _ (k : List ℕ → List ℕ) (c : ℕ) (r : List ℕ) where
  -- A case of an inner switch on a character.
  pick :
      (x : ℕ) (e : List ℕ) (t : ℕ) {y : ℕ}
      → length r ≡ length e
      → Named t (k (x ∷ e))
      → Spells (k (c ∷ r)) y
      → Spells (k (c ∷ r)) (if c == x then kw_next e t r else y)
  pick x e t h named hy =
      if_eq (Spells (k (c ∷ r))) c x
        (λ q.
          kw_next-Spells e t r (λ s. k (c ∷ s)) h
            (inr (subst (λ z. Named t (k (z ∷ e))) (sym q) named)))
        hy

pub switch_de-Spells : (p : List ℕ) → length p ≡ 1 → Spells (b'd' ∷ b'e' ∷ p) (switch_de p)
unfolding switch_de kw_next Named
switch_de-Spells [] h = inl refl
switch_de-Spells (c ∷ r) h =
    let k = λ (s : List ℕ). b'd' ∷ b'e' ∷ s in
    pick k c r b'f' [] tk_kw_def (omega arith) (omega arith, omega arith, refl)
      (pick k c r b'l' [] tk_kw_del (omega arith) (omega arith, omega arith, refl) (inl refl))

pub switch_el-Spells : (p : List ℕ) → length p ≡ 2 → Spells (b'e' ∷ b'l' ∷ p) (switch_el p)
unfolding switch_el Named
switch_el-Spells [] h = inl refl
switch_el-Spells (c ∷ r) h =
    let k = λ (s : List ℕ). b'e' ∷ b'l' ∷ s in
    pick k c r b's' (codes "e") tk_kw_else (omega arith) (omega arith, omega arith, refl)
      (pick k c r b'i' (codes "f") tk_kw_elif (omega arith) (omega arith, omega arith, refl)
        (inl refl))

pub switch_i-Spells : (p : List ℕ) → length p ≡ 1 → Spells (b'i' ∷ p) (switch_i p)
unfolding switch_i kw_next Named
switch_i-Spells [] h = inl refl
switch_i-Spells (c ∷ r) h =
    let k = λ (s : List ℕ). b'i' ∷ s in
    pick k c r b'f' [] tk_kw_if (omega arith) (omega arith, omega arith, refl)
      (pick k c r b'n' [] tk_kw_in (omega arith) (omega arith, omega arith, refl)
        (pick k c r b's' [] tk_kw_is (omega arith) (omega arith, omega arith, refl) (inl refl)))

pub kw_then-Spells :
    (first e : ℕ) (j : List ℕ → ℕ) (p : List ℕ) (n : ℕ)
    → length p ≡ suc n
    → ((r : List ℕ) → length r ≡ n → Spells (first ∷ e ∷ r) (j r))
    → Spells (first ∷ p) (kw_then e j p)
unfolding kw_then
kw_then-Spells first e j [] n h g = inl refl
kw_then-Spells first e j (c ∷ r) n h g =
    if_eq (Spells (first ∷ c ∷ r)) c e
      (λ q. subst (λ z. Spells (first ∷ z ∷ r) (j r)) (sym q) (g r (omega arith))) (inl refl)
