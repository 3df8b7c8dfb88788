-- ===== src/Parser/Results.antt =====
-- The contract of functions whose result tells what they have read, and its rules.
use python_lite.Base.{
  ℕ, ◌+◌, ◌-◌, ◌≤◌, ◌<◌, ◌≡◌, refl, Bool, true, false, Option, none, some, leb, if◌then◌else◌,
  arith,
}
use python_lite.Parser.State.{ParserState, Parse, M, ◌>>=◌, return, peek, peek_obj, get, next}
use python_lite.Parser.Contract.{
  left, Known, Keeps, Keeps-refl, Keeps-trans, Ends, returned, failed, unset, short, Safe,
  Ends-bind, Ends-after,
}

-- The contract where the result tells how many tokens are read at least.
pub record Gives {A : Type 0} (F : Type 0) (c : Option ℕ) (b : ℕ) (k : A → ℕ) (m : M A)
    : Type 0 where
  pub run : (s : ParserState) → Known c s → left s ≤ b → Ends F (λ x. Keeps (k x) s) (m s)

-- A function that tries has read a token where it accepts, one that looks where it finds.
abbrev pub if_true_one : Bool → ℕ
if_true_one true = 1
if_true_one false = 0

abbrev pub if_some_one {ℓ} : {A : Type ℓ} → Option A → ℕ
if_some_one none = 0
if_some_one (some x) = 1

abbrev pub Tries : Type 0 → ℕ → M Bool → Type 0
Tries F b m = Gives F none b if_true_one m

pub Gives-weaker :
    {A F : Type 0} {c : Option ℕ} {b : ℕ} {m : M A} (i k : A → ℕ)
    → ((x : A) → k x ≤ i x)
    → Gives F c b i m
    → Gives F c b k m
Gives-weaker {A} {F} i k le h = record { run = λ s known small. weaken s (h.run s known small) }
  where
    weaken :
        (s : ParserState) {r : Parse A}
        → Ends F (λ x. Keeps (i x) s) r
        → Ends F (λ x. Keeps (k x) s) r
    weaken s (returned {a} q) = returned (Keeps-trans (Keeps-refl s) q (omega (arith, le a)))
    weaken s failed = failed
    weaken s unset = unset
    weaken s (short x) = short x

module _ {A : Type 0} {F : Type 0} {c : Option ℕ} {b : ℕ} (k : A → ℕ) where
  pub gives : (m : M A) (i : ℕ) → ((x : A) → leb (k x) i ≡ true) → Safe F c b i m → Gives F c b k m
  gives m i le h = Gives-weaker (λ _. i) k (λ x. ground (arith, le x)) (record { run = h.run })

  pub Gives-return : (x : A) → k x ≡ 0 → Gives F c b k (return x)
  Gives-return x e = record {
    run = λ s known le. returned (Keeps-trans (Keeps-refl s) (Keeps-refl s) (omega arith));
  }

  pub Gives-branch :
      (t : Bool) {x y : M A}
      → (t ≡ true → Gives F c b k x)
      → (t ≡ false → Gives F c b k y)
      → Gives F c b k (if t then x else y)
  Gives-branch true h h' = h refl
  Gives-branch false h h' = h' refl

  pub Gives-peek :
      (f : ℕ → M A) → ((tk : ℕ) → Gives F (some tk) b k (f tk)) → Gives F c b k (peek >>= f)
  Gives-peek f h = record { run = λ s known le. (h s.token.val).run s refl le }

  pub Gives-peek_obj :
      (f : ℕ → M A) → ((o : ℕ) → Gives F c b k (f o)) → Gives F c b k (peek_obj >>= f)
  Gives-peek_obj f h = record { run = λ s known le. (h s.token.obj).run s known le }

  pub Gives-get :
      (f : ParserState → M A)
      → ((s : ParserState) → Gives F (some s.token.val) b k (f s))
      → Gives F c b k (get >>= f)
  Gives-get f h = record { run = λ s known le. (h s).run s refl le }

  -- Less is left for what follows, by what the result tells.
  pub Gives-then_less :
      {B : Type 0} (m : M B) (f : B → M A) (i : B → ℕ)
      → Gives F c b i m
      → ((x : B) (a : ℕ) → a + i x ≤ b → Gives F none a (λ y. k y - i x) (f x))
      → Gives F c b k (m >>= f)
  Gives-then_less {B} m f i h after_m = record {
    run = λ s known le. Ends-bind f (h.run s known le) λ x t keeps.
        after x s t keeps
          ((after_m x (left t) (omega (arith, keeps.reads))).run t tt (omega arith));
  }
    where
      after :
          (x : B) (s t : ParserState) {r : Parse A}
          → Keeps (i x) s t
          → Ends F (λ y. Keeps (k y - i x) t) r
          → Ends F (λ y. Keeps (k y) s) r
      after x s t keeps (returned q) = returned (Keeps-trans keeps q (omega arith))
      after x s t keeps failed = failed
      after x s t keeps unset = unset
      after x s t keeps (short y) = short y

-- Less is left for what follows, by what the result tells.
pub Gives-less :
    {A B F : Type 0} {c : Option ℕ} {b : ℕ} (i : B → ℕ) (m : M B) (f : B → M A)
    → Gives F c b i m
    → ((x : B) (a : ℕ) → a + i x ≤ b → Safe F none a 0 (f x))
    → Safe F c b 0 (m >>= f)
Gives-less i m f h after_m = record {
  run = λ s known le. Ends-bind f (h.run s known le) λ x t keeps.
      Ends-after keeps (omega arith)
        ((after_m x (left t) (omega (arith, keeps.reads))).run t tt (omega arith));
}

pub lower-Gives :
    {A F : Type 0} {c : Option ℕ} {b : ℕ} {k : A → ℕ} {m : M A} (a : ℕ)
    → a ≤ b
    → Gives F c b k m
    → Gives F c a k m
lower-Gives a le h = record { run = λ s known small. h.run s known (omega arith) }

pub lower_try : {F : Type 0} {b : ℕ} {m : M Bool} (a : ℕ) → a ≤ b → Tries F b m → Tries F a m
lower_try a le h = lower-Gives a le h

module _ {B F : Type 0} {c : Option ℕ} {b : ℕ} (m : M Bool) (h : Tries F b m) where
  pub try_then :
      {k : ℕ} (f : Bool → M B) → ((ok : Bool) → Safe F none b k (f ok)) → Safe F c b k (m >>= f)
  try_then f next = record {
    run = λ s known le. Ends-bind f (h.run s tt le) λ ok t keeps.
        Ends-after keeps (omega arith) ((next ok).run t tt (omega (arith, keeps.reads)));
  }

  -- Where it accepts, less is left for what follows.
  pub try_less :
      {k : ℕ} (f : Bool → M B)
      → leb k 1 ≡ true
      → ((a : ℕ) → a < b → Safe F none a 0 (f true))
      → Safe F none b k (f false)
      → Safe F c b k (m >>= f)
  try_less {k} f one more other = record {
    run = λ s known le. Ends-bind f (h.run s tt le) (λ ok t keeps. on s le ok t keeps);
  }
    where
      on :
          (s : ParserState)
          → left s ≤ b
          → (ok : Bool) (t : ParserState) → Keeps (if_true_one ok) s t
          → Ends F (λ _. Keeps k s) (f ok t)
      on s le true t keeps =
          Ends-after keeps (ground arith)
            ((more (left t) (omega (arith, keeps.reads))).run t tt (omega arith))
      on s le false t keeps =
          Ends-after keeps (omega arith) (other.run t tt (omega (arith, keeps.reads)))
