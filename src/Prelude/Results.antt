-- ===== src/Prelude/Results.antt =====
-- Functions that may raise: the refusal is a value. Each component has its own type of refusals.
use mathlib.Core.Path.{◌≡◌, refl}
use mathlib.Core.Logic.{◌⊎◌, inl, inr}
use mathlib.Core.Bool.{Bool, true, false}
use mathlib.Core.Option.{Option, none, some}

pub data Result {ℓ κ} (E : Type ℓ) (A : Type κ) : Type (ℓ ⊔ κ) where
  ok : A → Result E A
  err : E → Result E A

infixl 5 ◌>>=◌ ◌>>◌
abbrev pub ◌>>=◌ {ℓ κ μ} :
    {E : Type ℓ} {A : Type κ} {B : Type μ} → Result E A → (A → Result E B) → Result E B
ok a >>= f = f a
err e >>= f = err e

abbrev pub ◌>>◌ {ℓ κ μ} :
    {E : Type ℓ} {A : Type κ} {B : Type μ} → Result E A → Result E B → Result E B
m >> k = m >>= λ _. k

-- `if test: raise e`
abbrev pub raise_if {ℓ} : {E : Type ℓ} → Bool → E → Result E (Unit {0})
raise_if true e = err e
raise_if false e = ok tt

abbrev pub or_raise {ℓ κ} : {E : Type ℓ} {A : Type κ} → Option A → E → Result E A
or_raise none e = err e
or_raise (some a) e = ok a

abbrev pub is_ok {ℓ κ} : {E : Type ℓ} {A : Type κ} → Result E A → Bool
is_ok (ok _) = true
is_ok (err _) = false

module _ {ℓ κ} {E : Type ℓ} {A : Type κ} where
  pub Result-cases : (m : Result E A) → ((e : E) × (m ≡ err e)) ⊎ ((a : A) × (m ≡ ok a))
  Result-cases (err e) = inl (e, refl)
  Result-cases (ok a) = inr (a, refl)

module _ {ℓ κ μ} {E : Type ℓ} {A : Type κ} {B : Type μ} where
  -- What came before a successful end had succeeded.
  pub ok-bind :
      {f : A → Result E B} {end : B} (m : Result E A)
      → ◌>>=◌ m f ≡ ok end
      → (a : A) × (f a ≡ ok end) × (m ≡ ok a)
  ok-bind (err e) h = cc
  ok-bind (ok a) h = (a, h, refl)

pub ok-eq {ℓ κ} : {E : Type ℓ} {A : Type κ} {a b : A} → ◌≡◌ {A = Result E A} (ok a) (ok b) → a ≡ b
ok-eq h = cc

-- A test that did not raise was false, and a value that was there is the one that came out.
pub raise_if-ok {ℓ} :
    {E : Type ℓ} (b : Bool) (e : E) {u : Unit {0}} → raise_if b e ≡ ok u → b ≡ false
raise_if-ok true e h = cc
raise_if-ok false e h = refl

pub or_raise-ok {ℓ κ} :
    {E : Type ℓ} {A : Type κ} (o : Option A) (e : E) {a : A} → or_raise o e ≡ ok a → o ≡ some a
or_raise-ok none e h = cc
or_raise-ok (some b) e h = cc

-- The same after a test, and after a value that had to be there.
module _ {ℓ κ} {E : Type ℓ} {B : Type κ} where
  pub ok-raise_if :
      (b : Bool) (e : E) {m : Result E B} {end : B}
      → raise_if b e >> m ≡ ok end
      → (b ≡ false) × (m ≡ ok end)
  ok-raise_if true e h = cc
  ok-raise_if false e h = (refl, h)

  pub ok-or_raise {μ} :
      {A : Type μ} (o : Option A) (e : E) {f : A → Result E B} {end : B}
      → ◌>>=◌ (or_raise o e) f ≡ ok end
      → (a : A) × (f a ≡ ok end) × (o ≡ some a)
  ok-or_raise none e h = cc
  ok-or_raise (some a) e h = (a, h, refl)
