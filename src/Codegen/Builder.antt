-- ===== src/Codegen/Builder.antt =====
-- codegen/data.go: the steps of the `builder`, which change the binder and can return an error or panic.
pub mod Ends
use fastgql.Prelude.{refl, ◌≡◌, String, ◌⊎◌, inl, inr, List, [], ◌∷◌}
use fastgql.Prelude.Outcome.{Outcome, ok, panic, out_of_fuel}
use fastgql.Config.Binder.Lookup.{Binder}

abbrev pub Build {ℓ} : Type ℓ → Type ℓ
Build A = Binder → Outcome (Binder × (String ⊎ A))

module _ {ℓ κ} {A : Type ℓ} {B : Type κ} where
  abbrev pub after :
      (A → Build B) → Outcome (Binder × (String ⊎ A)) → Outcome (Binder × (String ⊎ B))
  after next (ok (b, inr a)) = next a b
  after next (ok (b, inl err)) = ok (b, inl err)
  after next (panic text) = panic text
  after next out_of_fuel = out_of_fuel

infixl 5 ◌>>=◌ ◌>>◌
abbrev pub ◌>>=◌ {ℓ κ} : {A : Type ℓ} {B : Type κ} → Build A → (A → Build B) → Build B
◌>>=◌ m next b = after next (m b)

abbrev pub ◌>>◌ {ℓ} : {B : Type ℓ} → Build (Unit {0}) → Build B → Build B
m >> next = m >>= λ u. next

abbrev pub pure {ℓ} : {A : Type ℓ} → A → Build A
pure a b = ok (b, inr a)

-- What does not touch the binder.
abbrev pub checked {ℓ} : {A : Type ℓ} → String ⊎ A → Build A
checked r b = ok (b, r)

-- What is returned in the end comes from a value that the first step returned.
pub >>=-eq-ok {ℓ κ} :
    {A : Type ℓ} {B : Type κ} {result : B} {b b' : Binder} (first : Build A) (next : A → Build B)
    → (first >>= next) b ≡ ok (b', inr result)
    → (between : Binder) × (value : A) × (first b ≡ ok (between, inr value))
      × (next value between ≡ ok (b', inr result))
>>=-eq-ok {A = A} {B} {result} {b} {b'} first next e = inverted (first b) refl e
  where
    inverted :
        (r : Outcome (Binder × (String ⊎ A)))
        → first b ≡ r
        → after next r ≡ ok (b', inr result)
        → (between : Binder) × (value : A) × (first b ≡ ok (between, inr value))
          × (next value between ≡ ok (b', inr result))
    inverted (ok (between, inr value)) same x = (between, value, same, x)
    inverted (ok (between, inl err)) same x = cc
    inverted (panic text) same x = cc
    inverted out_of_fuel same x = cc

pub pure-eq {ℓ} :
    {A : Type ℓ} {a a' : A} {b b' : Binder} → pure a b ≡ ok (b', inr a') → (a ≡ a') × (b ≡ b')
pure-eq e = (cc, cc)

module _ {ℓ κ} {A : Type ℓ} {B : Type κ} (f : A → Build B) where
  -- The loops that stop at the first error.
  unfoldable pub each : List A → Build (List B)
  each [] = pure []
  each (a ∷ rest) = do first ← f a; others ← each rest; pure (first ∷ others)
