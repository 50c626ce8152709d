-- ===== src/Codegen/Builder/Ends.antt =====
-- codegen/data.go: steps of the `builder` end if their parts do.
use fastgql.Prelude.{String, ◌⊎◌, inl, inr, List, [], ◌∷◌}
use fastgql.Prelude.Outcome.{Outcome, ok, panic, out_of_fuel, Halts}
use fastgql.Config.Binder.Lookup.{Binder}
use fastgql.Codegen.Builder.{Build, ◌>>=◌, pure, each, after}

-- From every binder the step ends: it returns, with a value or an error, or it panics.
abbrev pub Ends {ℓ} : {A : Type ℓ} → Build A → Type 0
Ends m = (b : Binder) → Halts (m b)

pub Ends-bind {ℓ κ} :
    {A : Type ℓ} {B : Type κ} (m : Build A) (next : A → Build B)
    → Ends m
    → ((a : A) → Ends (next a))
    → Ends (m >>= next)
Ends-bind {A = A} m next h k b = at_result (m b) (h b)
  where
    at_result : (r : Outcome (Binder × (String ⊎ A))) → Halts r → Halts (after next r)
    at_result (ok (b', inr a)) x = k a b'
    at_result (ok (b', inl err)) x = tt
    at_result (panic text) x = tt
    at_result out_of_fuel x = x

pub Ends-map {ℓ κ} :
    {A : Type ℓ} {B : Type κ} (m : Build A) (f : A → B) → Ends m → Ends (m >>= λ a. pure (f a))
Ends-map m f h = Ends-bind m (λ a. pure (f a)) h (λ a b. tt)

pub Ends-each {ℓ κ} :
    {A : Type ℓ} {B : Type κ} (f : A → Build B)
    → ((a : A) → Ends (f a))
    → (l : List A) → Ends (each f l)
unfolding each
Ends-each f h [] = λ b. tt
Ends-each f h (a ∷ l) =
    Ends-bind (f a) (λ first. each f l >>= λ others. pure (first ∷ others)) (h a)
      λ first. Ends-map (each f l) (λ others. first ∷ others) (Ends-each f h l)
