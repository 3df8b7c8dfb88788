-- ===== src/Parser/Rules.antt =====
-- The rules by which the contract of a function is put together along its code.
use python_lite.Base.{
  ℕ, zero, suc, ◌≤◌, ◌<◌, ◌≡◌, refl, Bool, true, false, Option, none, some, leb, if◌then◌else◌,
  arith, ◌⊎◌, inl, inr,
}
use python_lite.Parser.State.{
  ParserState, ParseError, out_of_fuel, M, ◌>>=◌, return, fail, peek, peek_obj, get, next,
}
use python_lite.Parser.Contract.{
  left, Keeps-refl, returned, failed, short, Safe, Ends-bind, Ends-after,
}

module _ {B : Type 0} {F : Type 0} {c : Option ℕ} {b k : ℕ} where
  pub peeks : (f : ℕ → M B) → ((tk : ℕ) → Safe F (some tk) b k (f tk)) → Safe F c b k (peek >>= f)
  peeks f h = record { run = λ s known le. (h s.token.val).run s refl le }

  pub peek_objs : (f : ℕ → M B) → ((o : ℕ) → Safe F c b k (f o)) → Safe F c b k (peek_obj >>= f)
  peek_objs f h = record { run = λ s known le. (h s.token.obj).run s known le }

  pub gets :
      (f : ParserState → M B)
      → ((s : ParserState) → Safe F (some s.token.val) b k (f s))
      → Safe F c b k (get >>= f)
  gets f h = record { run = λ s known le. (h s).run s refl le }

  pub branch :
      (t : Bool) {x y : M B}
      → (t ≡ true → Safe F c b k x)
      → (t ≡ false → Safe F c b k y)
      → Safe F c b k (if t then x else y)
  branch true h h' = h refl
  branch false h h' = h' refl

  pub fails : (e : ParseError) → Safe F c b k (fail {A = B} e)
  fails e = record { run = λ s known le. failed }

  pub forget : (m : M B) → Safe F none b k m → Safe F c b k m
  forget m h = record { run = λ s known le. h.run s tt le }

pub lower :
    {A F : Type 0} {c : Option ℕ} {b k : ℕ} {m : M A} (a : ℕ)
    → a ≤ b
    → Safe F c b k m
    → Safe F c a k m
lower a le h = record { run = λ s known small. h.run s known (omega arith) }

-- Enough fuel for what reads a token in every round, or it is allowed to run out.
abbrev pub Enough : Type 0 → ℕ → ℕ → Type 0
Enough F b n = (b < n) ⊎ F

pub no_fuel :
    {A F : Type 0} {c : Option ℕ} {b k : ℕ} {m : M A}
    → Enough F b zero
    → ((s : ParserState) → m s ≡ out_of_fuel)
    → Safe F c b k m
no_fuel {F} {k} (inl le) e = elim le [ ]
no_fuel {F} {k} (inr x) e = record { run = λ s known le. rw (e s) (short x) }

pub fuel_below : {F : Type 0} {a b n : ℕ} → Enough F b (suc n) → a < b → Enough F a n
fuel_below (inl h) lt = inl (omega arith)
fuel_below (inr x) lt = inr x

pub fuel_less : {F : Type 0} {a b n : ℕ} → Enough F b n → a < b → Enough F a n
fuel_less (inl h) lt = inl (omega arith)
fuel_less (inr x) lt = inr x

pub returns : {B F : Type 0} {c : Option ℕ} {b : ℕ} (x : B) → Safe F c b 0 (return x)
returns x = record { run = λ s known le. returned (Keeps-refl s) }

module _ {A B : Type 0} {F : Type 0} {c : Option ℕ} {b : ℕ} where
  -- A call, and what follows it.
  pub then_ :
      {k : ℕ} (m : M A) (f : A → M B)
      → Safe F c b 0 m
      → ((x : A) → Safe F none b k (f x))
      → Safe F c b k (m >>= f)
  then_ m f h next = record {
    run = λ s known le. Ends-bind f (h.run s known le) λ x t keeps.
        Ends-after keeps (omega arith) ((next x).run t tt (omega (arith, keeps.reads)));
  }

  -- A call that reads a token, and what follows it.
  pub then_less :
      {k : ℕ} (m : M A) (f : A → M B)
      → Safe F c b 1 m
      → leb k 1 ≡ true
      → ((a : ℕ) → a < b → (x : A) → Safe F none a 0 (f x))
      → Safe F c b k (m >>= f)
  then_less m f h one next = record {
    run = λ s known le. Ends-bind f (h.run s known le) λ x t keeps.
        Ends-after keeps (ground arith)
          ((next (left t) (omega (arith, keeps.reads)) x).run t tt (omega arith));
  }
