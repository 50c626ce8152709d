-- ===== src/Prelude/Outcome.antt =====
-- The result of Go code that can panic, or whose model can run out of fuel.
use fastgql.Prelude.{ap}
use Prim.Native.String.{String}
use mathlib.Core.Path.{ap, ◌≡◌, refl, subst}

pub data Outcome {ℓ} (A : Type ℓ) : Type ℓ where
  ok : A → Outcome A
  panic : String → Outcome A
  out_of_fuel : Outcome A

-- The code after a call runs only if the call returns.
infixl 5 ◌>>=◌
abbrev pub ◌>>=◌ {ℓ κ} : {A : Type ℓ} {B : Type κ} → Outcome A → (A → Outcome B) → Outcome B
panic text >>= next = panic text
out_of_fuel >>= next = out_of_fuel
ok value >>= next = next value

-- What is returned in the end comes from a value that the first part returned.
pub >>=-eq-ok {ℓ κ} :
    {A : Type ℓ} {B : Type κ} {result : B} (first : Outcome A) (next : A → Outcome B)
    → (first >>= next) ≡ ok result
    → (value : A) × (first ≡ ok value) × (next value ≡ ok result)
>>=-eq-ok out_of_fuel next returns = cc
>>=-eq-ok (panic text) next returns = cc
>>=-eq-ok (ok value) next returns = (value, refl, returns)

-- What holds of the value, if there is one.
abbrev pub Ensures {ℓ κ} : {A : Type ℓ} → (A → Type κ) → Outcome A → Type κ
Ensures P (ok a) = P a
Ensures P (panic m) = Unit
Ensures P out_of_fuel = Unit

module _ {ℓ κ ν} {A : Type ℓ} {B : Type κ} (P : B → Type ν) where
  pub Ensures-bind :
      (r : Outcome A) (k : A → Outcome B)
      → ((a : A) → r ≡ ok a → Ensures P (k a))
      → Ensures P (r >>= k)
  Ensures-bind (ok a) k h = h a refl
  Ensures-bind (panic m) k h = tt
  Ensures-bind out_of_fuel k h = tt

pub ok-injective {ℓ} : {A : Type ℓ} {a b : A} → ok a ≡ ok b → a ≡ b
ok-injective e = cc

pub Ensures-eq {ℓ κ} :
    {A : Type ℓ} (P : A → Type κ) (r : Outcome A) (a : A) → r ≡ ok a → Ensures P r → P a
Ensures-eq P (ok b) a e h = subst P (ok-injective e) h
Ensures-eq P (panic m) a e h = cc
Ensures-eq P out_of_fuel a e h = cc

pub Ensures-intro {ℓ κ} :
    {A : Type ℓ} (P : A → Type κ) (r : Outcome A) → ((a : A) → r ≡ ok a → P a) → Ensures P r
Ensures-intro P (ok a) h = h a refl
Ensures-intro P (panic m) h = tt
Ensures-intro P out_of_fuel h = tt

module _ {ℓ κ ν} {A : Type ℓ} {B : Type κ} (P : B → Type ν) where
  pub Ensures-bind_twice :
      {C : Type ℓ} (r : Outcome A) (k : A → Outcome C) (k' : C → Outcome B)
      → ((a : A) → r ≡ ok a → Ensures P (k a >>= k'))
      → Ensures P ((r >>= k) >>= k')
  Ensures-bind_twice (ok a) k k' h = h a refl
  Ensures-bind_twice (panic m) k k' h = tt
  Ensures-bind_twice out_of_fuel k k' h = tt

pub Ensures-map {ℓ κ ν} :
    {A : Type ℓ} (P : A → Type κ) (Q : A → Type ν) (r : Outcome A)
    → ((a : A) → P a → Q a)
    → Ensures P r
    → Ensures Q r
Ensures-map P Q (ok a) f h = f a h
Ensures-map P Q (panic m) f h = tt
Ensures-map P Q out_of_fuel f h = tt

pub Ensures-then {ℓ κ ν μ} :
    {A : Type ℓ} {B : Type κ} (P : A → Type ν) (Q : B → Type μ) (r : Outcome A) (k : A → Outcome B)
    → ((a : A) → P a → Ensures Q (k a))
    → Ensures P r
    → Ensures Q (r >>= k)
Ensures-then P Q (ok a) k f h = f a h
Ensures-then P Q (panic m) k f h = tt
Ensures-then P Q out_of_fuel k f h = tt

-- The model's fuel was enough.
abbrev pub Halts {ℓ} : {A : Type ℓ} → Outcome A → Type 0
Halts (ok a) = Unit
Halts (panic m) = Unit
Halts out_of_fuel = ⊥

abbrev pub Returns {ℓ} : {A : Type ℓ} → Outcome A → Type ℓ
Returns {A = A} r = (a : A) × (r ≡ ok a)

module _ {ℓ} {A : Type ℓ} {B : Type ℓ} (first : Outcome A) (f : A → B) where
  pub Returns-map : Returns first → Returns (first >>= λ a. ok (f a))
  Returns-map (a, e) = (f a, ap (λ r. r >>= λ x. ok (f x)) e)

pub Halts-bind {ℓ κ} :
    {A : Type ℓ} {B : Type κ} (r : Outcome A) (k : A → Outcome B)
    → Halts r
    → ((a : A) → Halts (k a))
    → Halts (r >>= k)
Halts-bind (ok a) k h hs = hs a
Halts-bind (panic m) k h hs = tt
Halts-bind out_of_fuel k h hs = h
