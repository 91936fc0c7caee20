-- ===== src/Outcome.antt =====
-- How a piece of C++ ends: it returns a value, it throws an exception (utils::prefix, boost and
-- the C++ library throw), or it runs into undefined behaviour (a null pointer that is read, a
-- member of the union sr_data_t that is not the one stored).
use mathlib.Core.Path.{subst}
use archived_sweetcomb.Prelude.{◌≡◌, refl, Option, none, some}

pub data Outcome {ℓ} (A : Type ℓ) : Type ℓ where
  returns : A → Outcome A
  throws : Outcome A
  crash : Outcome A

infixl 5 ◌>>=◌ ◌>>◌
abbrev pub ◌>>=◌ {ℓ κ} : {A : Type ℓ} {B : Type κ} → Outcome A → (A → Outcome B) → Outcome B
returns a >>= f = f a
throws >>= f = throws
crash >>= f = crash

abbrev pub ◌>>◌ {ℓ κ} : {A : Type ℓ} {B : Type κ} → Outcome A → Outcome B → Outcome B
m >> k = m >>= λ _. k

-- Reading through a pointer.
abbrev pub deref {ℓ} : {A : Type ℓ} → Option A → Outcome A
deref none = crash
deref (some a) = returns a

-- A call that reports failure by an exception.
abbrev pub or_throw {ℓ} : {A : Type ℓ} → Option A → Outcome A
or_throw none = throws
or_throw (some a) = returns a

pub >>=-eq-returns {ℓ κ} :
    {A : Type ℓ} {B : Type κ} (m : Outcome A) (f : A → Outcome B) {b : B}
    → (m >>= f) ≡ returns b
    → (a : A) × (m ≡ returns a) × (f a ≡ returns b)
>>=-eq-returns (returns a) f h = (a, refl, h)
>>=-eq-returns throws f h = cc
>>=-eq-returns crash f h = cc

pub >>=-assoc {ℓ κ μ} :
    {A : Type ℓ} {B : Type κ} {C : Type μ} (m : Outcome A) (f : A → Outcome B) (g : B → Outcome C)
    → (m >>= f >>= g) ≡ (m >>= λ a. f a >>= g)
>>=-assoc (returns a) f g = refl
>>=-assoc throws f g = refl
>>=-assoc crash f g = refl

pub >>=-returns {ℓ} : {A : Type ℓ} (m : Outcome A) → m ≡ (m >>= returns)
>>=-returns (returns a) = refl
>>=-returns throws = refl
>>=-returns crash = refl

pub >>=-cong {ℓ κ} :
    {A : Type ℓ} {B : Type κ} (m : Outcome A) (f g : A → Outcome B)
    → ((a : A) → f a ≡ g a)
    → (m >>= f) ≡ (m >>= g)
>>=-cong (returns a) f g h = h a
>>=-cong throws f g h = refl
>>=-cong crash f g h = refl

-- What holds of the value of a piece that returns, and that a piece returns such a value.
abbrev pub IfReturns {ℓ} : {A : Type ℓ} → (A → Type 0) → Outcome A → Type 0
IfReturns P (returns a) = P a
IfReturns P throws = Unit
IfReturns P crash = Unit

abbrev pub Returns {ℓ} : {A : Type ℓ} → (A → Type 0) → Outcome A → Type 0
Returns P (returns a) = P a
Returns P throws = ⊥
Returns P crash = ⊥

-- A piece that returns or throws.
abbrev pub Survives {ℓ} : {A : Type ℓ} → Outcome A → Type 0
Survives (returns a) = Unit
Survives throws = Unit
Survives crash = ⊥

module _ {ℓ} {A : Type ℓ} (P : A → Type 0) where
  pub IfReturns-eq : (m : Outcome A) (a : A) → IfReturns P m → m ≡ returns a → P a
  IfReturns-eq m a h e = subst (IfReturns P) e h

  pub Returns-some : (m : Outcome A) → Returns P m → (a : A) × (m ≡ returns a) × P a
  Returns-some (returns a) h = (a, refl, h)
  Returns-some throws h = absurd h
  Returns-some crash h = absurd h

pub Returns-any {ℓ} :
    {A : Type ℓ} (P : A → Type 0) (m : Outcome A) → Returns P m → Returns (λ _. Unit) m
Returns-any P (returns a) h = tt
Returns-any P throws h = absurd h
Returns-any P crash h = absurd h

module _ {ℓ κ} {A : Type ℓ} {B : Type κ} (P : A → Type 0) (Q : B → Type 0) where
  pub IfReturns-bind :
      (m : Outcome A) (f : A → Outcome B)
      → IfReturns P m
      → ((a : A) → P a → IfReturns Q (f a))
      → IfReturns Q (m >>= f)
  IfReturns-bind (returns a) f h k = k a h
  IfReturns-bind throws f h k = tt
  IfReturns-bind crash f h k = tt

  pub Returns-bind :
      (m : Outcome A) (f : A → Outcome B)
      → Returns P m
      → ((a : A) → P a → Returns Q (f a))
      → Returns Q (m >>= f)
  Returns-bind (returns a) f h k = k a h
  Returns-bind throws f h k = absurd h
  Returns-bind crash f h k = absurd h

pub IfReturns-each {ℓ κ} :
    {A : Type ℓ} {B : Type κ} (Q : B → Type 0) (m : Outcome A) (f : A → Outcome B)
    → ((a : A) → m ≡ returns a → IfReturns Q (f a))
    → IfReturns Q (m >>= f)
IfReturns-each Q (returns a) f k = k a refl
IfReturns-each Q throws f k = tt
IfReturns-each Q crash f k = tt

pub Survives-bind {ℓ κ} :
    {A : Type ℓ} {B : Type κ} (m : Outcome A) (f : A → Outcome B)
    → Survives m
    → ((a : A) → Survives (f a))
    → Survives (m >>= f)
Survives-bind (returns a) f h k = k a
Survives-bind throws f h k = tt
Survives-bind crash f h k = absurd h
