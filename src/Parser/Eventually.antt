-- ===== src/Parser/Eventually.antt =====
-- What a function on fuel does from some fuel on.
use python_lite.Base.{ℕ, zero, suc, ◌+◌, ◌≤◌, ◌≡◌, ap, ◌∙◌, arith}
use python_lite.Parser.State.{ParserState, Parse, done, error, undefined, out_of_fuel, M, ◌>>=◌}

abbrev pub Eventually {ℓ} : {A : Type ℓ} → (ℕ → Parse A) → Parse A → Type ℓ
Eventually f r = (enough : ℕ) × ((n : ℕ) → enough ≤ n → f n ≡ r)

pub bind_done {ℓ κ} :
    {A : Type ℓ} {B : Type κ} (m : M A) (f : A → M B) (s : ParserState) {a : A} {s' : ParserState}
    → m s ≡ done a s'
    → (m >>= f) s ≡ f a s'
bind_done {B} m f s e =
    ap
      (λ r.
        let go : Parse B = elim r [
          | done b t ↦ f b t
          | error x ↦ error x
          | undefined ↦ undefined
          | out_of_fuel ↦ out_of_fuel
        ] in
        go)
      e

pub Eventually-always {ℓ} :
    {A : Type ℓ} {f : ℕ → Parse A} {r : Parse A} → ((n : ℕ) → f n ≡ r) → Eventually f r
Eventually-always h = (0, λ n _. h n)

later {ℓ} :
    {A : Type ℓ} (f g : ℕ → Parse A) {r : Parse A}
    → ((n : ℕ) → f (suc n) ≡ g n)
    → (enough : ℕ) → ((n : ℕ) → enough ≤ n → g n ≡ r)
    → (n : ℕ) → suc enough ≤ n
    → f n ≡ r
later f g same enough h zero le = absurd (omega arith)
later f g same enough h (suc n) le = same n ∙ h n (omega arith)

-- A step before, with the fuel for what is called.
pub Eventually-suc {ℓ} :
    {A : Type ℓ} (f g : ℕ → Parse A) {r : Parse A}
    → ((n : ℕ) → f (suc n) ≡ g n)
    → Eventually g r
    → Eventually f r
Eventually-suc f g same (enough, h) = (suc enough, later f g same enough h)

pub Eventually-bind {ℓ κ} :
    {A : Type ℓ} {B : Type κ} (m : ℕ → M A) (f : ℕ → A → M B) (s : ParserState) {a : A}
    {s' : ParserState} {r : Parse B}
    → Eventually (λ n. m n s) (done a s')
    → Eventually (λ n. f n a s') r
    → Eventually (λ n. (m n >>= f n) s) r
Eventually-bind m f s (n₁, h) (n₂, k) =
    (n₁ + n₂, λ n le. bind_done (m n) (f n) s (h n (omega arith)) ∙ k n (omega arith))
