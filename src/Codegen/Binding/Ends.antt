-- ===== src/Codegen/Binding/Ends.antt =====
-- codegen/field.go: the search for a bind target ends unless a type embeds itself.
use fastgql.Prelude.{
  All-map, ℕ, zero, suc, ◌<◌, ◌≡◌, refl, sym, arith, Bool, Option, some, List, [], ◌∷◌, All,
  Option-cases, inl, inr,
}
use fastgql.Prelude.Outcome.{Outcome, ok, panic, out_of_fuel, ◌>>=◌, Halts}
use fastgql.Prelude.Text.{Bytes}
use fastgql.Codegen.Binding.{
  Declaration, Found, missing, failed, found, embeds_of, next_embed, find_in_embeds, choose,
  after_tag, find_bind_struct_tag_target, find_bind_method_target, find_bind_field_target,
  bind_declared, find_bind_target,
}

-- Two searches end with the same result.
record Agree (a b : Outcome Found) : Type 0 where
  halts : Halts a
  same : a ≡ b

Agree-ok : (f : Found) → Agree (ok f) (ok f)
Agree-ok f = record { halts = tt; same = refl }

module _ (rec rec' : Bytes → Outcome Found) where
  next-Agree :
      (rest rest' : Found → Outcome Found) (so_far here : Found)
      → ((f : Found) → Agree (rest f) (rest' f))
      → Agree (next_embed rest so_far here) (next_embed rest' so_far here)
  unfolding next_embed
  next-Agree rest rest' so_far failed h = Agree-ok failed
  next-Agree rest rest' so_far missing h = h so_far
  next-Agree rest rest' missing (found t) h = h (found t)
  next-Agree rest rest' (found t') (found t) h = Agree-ok failed
  next-Agree rest rest' failed (found t) h = Agree-ok failed

  bind-Agree :
      (a b : Outcome Found) (next next' : Found → Outcome Found)
      → Agree a b
      → ((f : Found) → Agree (next f) (next' f))
      → Agree (a >>= next) (b >>= next')
  bind-Agree (ok f) b next next' h k = rw (sym h.same) (k f)
  bind-Agree (panic m) b next next' h k = rw (sym h.same) (record { halts = tt; same = refl })
  bind-Agree out_of_fuel b next next' h k = elim h.halts [ ]

  embeds-Agree :
      (ts : List Bytes) (so_far : Found)
      → All (λ t. Agree (rec t) (rec' t)) ts
      → Agree (find_in_embeds rec ts so_far) (find_in_embeds rec' ts so_far)
  unfolding find_in_embeds
  embeds-Agree [] so_far h = Agree-ok so_far
  embeds-Agree (t ∷ ts) so_far (h, hs) =
      bind-Agree (rec t) (rec' t) (next_embed (find_in_embeds rec ts) so_far)
        (next_embed (find_in_embeds rec' ts) so_far) h
        λ here.
          next-Agree (find_in_embeds rec ts) (find_in_embeds rec' ts) so_far here
            (λ f. embeds-Agree ts f hs)

choose-Agree : (m f : Found) (a b : Outcome Found) → Agree a b → Agree (choose m f a) (choose m f b)
unfolding choose
choose-Agree failed f a b h = Agree-ok failed
choose-Agree missing failed a b h = Agree-ok failed
choose-Agree (found m) failed a b h = Agree-ok failed
choose-Agree missing missing a b h = h
choose-Agree (found m) missing a b h = Agree-ok (found m)
choose-Agree missing (found f) a b h = Agree-ok (found f)
choose-Agree (found m) (found f) a b h = Agree-ok failed

after_tag-Agree :
    (f : Found) (a b : Outcome Found) → Agree a b → Agree (after_tag f a) (after_tag f b)
unfolding after_tag
after_tag-Agree missing a b h = h
after_tag-Agree failed a b h = Agree-ok failed
after_tag-Agree (found f) a b h = Agree-ok (found f)

module _ (uses_tags : Bool) (name : Bytes) (declared : Bytes → Option Declaration) where
  -- A type has a higher rank than the types that it embeds.
  abbrev pub IsRanked : (Bytes → ℕ) → Type 0
  IsRanked rank =
      (t : Bytes) (d : Declaration)
      → declared t ≡ some d
      → All (λ e. rank e < rank t) (embeds_of d.underlying)

  searches-Agree :
      (rank : Bytes → ℕ) (fuel fuel' : ℕ) (t : Bytes)
      → IsRanked rank
      → rank t < fuel
      → rank t < fuel'
      → Agree
          (find_bind_target uses_tags name declared fuel t)
          (find_bind_target uses_tags name declared fuel' t)
  unfolding find_bind_target bind_declared
  searches-Agree rank zero fuel' t ranked h h' = absurd (omega arith)
  searches-Agree rank (suc fuel) zero t ranked h h' = absurd (omega arith)
  searches-Agree rank (suc fuel) (suc fuel') t ranked h h' = elim (Option-cases (declared t)) [
    | inl e ↦ rw e (Agree-ok missing)
    | inr (d, e) ↦ rw e (
        after_tag-Agree (find_bind_struct_tag_target uses_tags name d.underlying) _ _ (
          choose-Agree (find_bind_method_target uses_tags name d.methods)
            (find_bind_field_target uses_tags name d.underlying) _ _
            (embeds-Agree (find_bind_target uses_tags name declared fuel)
              (find_bind_target uses_tags name declared fuel') (embeds_of d.underlying) missing
              (All-map (λ e. rank e < rank t)
                (λ e.
                  Agree (find_bind_target uses_tags name declared fuel e)
                    (find_bind_target uses_tags name declared fuel' e))
                (embeds_of d.underlying)
                (λ e lower.
                  searches-Agree rank fuel fuel' e ranked (omega (arith, lower))
                    (omega (arith, lower)))
                (ranked t d e)))))
  ]

  -- If no type embeds itself, directly or through others, so that types have ranks, findBindTarget ends:
  -- one more than the rank of the type is fuel enough, and more fuel gives the same result.
  pub find_bind_target-IsRanked :
      (rank : Bytes → ℕ) (fuel : ℕ) (t : Bytes)
      → IsRanked rank
      → rank t < fuel
      → Halts (find_bind_target uses_tags name declared fuel t)
        × (find_bind_target uses_tags name declared fuel t
            ≡ find_bind_target uses_tags name declared (suc (rank t)) t)
  find_bind_target-IsRanked rank fuel t ranked h =
      let agree = searches-Agree rank fuel (suc (rank t)) t ranked h (omega arith) in
      (agree.halts, agree.same)

  -- A type that embeds itself first, and has no tag, method or field of the name, makes findBindTarget
  -- run out of every fuel: the code never returns.
  pub find_bind_target-loops :
      (fuel : ℕ) (t : Bytes) (d : Declaration) (more : List Bytes)
      → declared t ≡ some d
      → find_bind_struct_tag_target uses_tags name d.underlying ≡ missing
      → find_bind_method_target uses_tags name d.methods ≡ missing
      → find_bind_field_target uses_tags name d.underlying ≡ missing
      → embeds_of d.underlying ≡ t ∷ more
      → find_bind_target uses_tags name declared fuel t ≡ out_of_fuel
  unfolding find_bind_target bind_declared find_in_embeds after_tag choose
  find_bind_target-loops zero t d more e no_tag no_method no_field self = refl
  find_bind_target-loops (suc fuel) t d more e no_tag no_method no_field self =
      rw
        (
          e,
          no_tag,
          no_method,
          no_field,
          self,
          find_bind_target-loops fuel t d more e no_tag no_method no_field self,
        )
        refl
