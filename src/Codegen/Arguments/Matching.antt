-- ===== src/Codegen/Arguments/Matching.antt =====
-- codegen/args.go: the arguments that `bindArgs` leaves are the parameters of the method.
use mathlib.Core.Path.{subst}
use fastgql.Prelude.{
  ◌≡◌, refl, sym, ◌∙◌, ap, ℕ, zero, suc, String, true, Option, none, some, Bool-cases, inl, inr,
  List, [], ◌∷◌, ◌++◌, append_assoc, append-nil, get_elem?, ◌⊎◌,
}
use fastgql.Prelude.Outcome.{ok, Ensures, Ensures-eq, Ensures-bind, Ensures-map}
use fastgql.Prelude.Text.{Bytes}
use fastgql.Code.{GoType}
use fastgql.Config.Binder.{GqlType, TypeReference}
use fastgql.Config.Binder.Lookup.{Binder}
use fastgql.Codegen.Binding.{equal_fold}
use fastgql.Codegen.Builder.{Build}
use fastgql.Codegen.Arguments.{
  Argument, Param, ArgState, names_of, index_of, set_reference, referred, with_arg, found_arg,
  bind_args,
}

names_of-set_reference :
    (i : ℕ) (ref : TypeReference) (args : List Argument)
    → names_of (set_reference i ref args) ≡ names_of args
unfolding set_reference
names_of-set_reference i ref [] = refl
names_of-set_reference zero ref (a ∷ args) = refl
names_of-set_reference (suc i) ref (a ∷ args) =
    ap (λ ns. a.name ∷ ns) (names_of-set_reference i ref args)

-- The parameters have, up to case, the names at these indices.
abbrev pub Match : List Bytes → List Param → List ℕ → Type 0
Match names [] [] = Unit
Match names [] (i ∷ is) = ⊥
Match names (p ∷ params) [] = ⊥
Match names (p ∷ params) (i ∷ is) =
    ((name : Bytes) × (get_elem? names i ≡ some name) × (equal_fold name p.name ≡ true))
    × Match names params is

index_of-get_elem? :
    (name : Bytes) (names : List Bytes) (i : ℕ)
    → index_of name names ≡ some i
    → (n : Bytes) × (get_elem? names i ≡ some n) × (equal_fold n name ≡ true)
unfolding index_of
index_of-get_elem? name [] i e = cc
index_of-get_elem? name (n ∷ names) i e = elim (Bool-cases (equal_fold n name)) [
  | inl same ↦ here i (rw same at e) same
  | inr differs ↦ there (index_of name names) i (index_of-get_elem? name names) (rw differs at e)
]
  where
    here :
        (j : ℕ)
        → some zero ≡ some j
        → equal_fold n name ≡ true
        → (m : Bytes) × (get_elem? (n ∷ names) j ≡ some m) × (equal_fold m name ≡ true)
    here zero x same = (n, refl, same)
    here (suc j) x same = cc

    there :
        (o : Option ℕ) (j : ℕ)
        → ((k : ℕ)
            → o ≡ some k
            → (m : Bytes) × (get_elem? names k ≡ some m) × (equal_fold m name ≡ true))
        → elim o [ none ↦ none | some k ↦ some (suc k) ] ≡ some j
        → (m : Bytes) × (get_elem? (n ∷ names) j ≡ some m) × (equal_fold m name ≡ true)
    there none j h x = cc
    there (some k) zero h x = cc
    there (some k) (suc j) h x = h j cc

module _ (type_reference : GqlType → Option GoType → Build TypeReference) where
  -- Names stay, and without an error the new arguments match.
  abbrev pub Extends : List Param → ArgState → ArgState → Type 0
  Extends params s s' =
      s'.err ≡ none
      → (is : List ℕ) × (s'.new_args ≡ s.new_args ++ is)
        × (names_of s'.args ≡ names_of s.args)
        × Match (names_of s.args) params is

  abbrev after : ℕ → ArgState → Binder → TypeReference → ArgState
  after i s b ref = record {
    binder = b;
    args = set_reference i ref s.args;
    new_args = s.new_args ++ i ∷ [];
    err = none;
  }

  Extends-after :
      (p : Param) (params : List Param) (i : ℕ) (s s' : ArgState) (b : Binder) (ref : TypeReference)
      → index_of p.name (names_of s.args) ≡ some i
      → Extends params (after i s b ref) s'
      → Extends (p ∷ params) s s'
  Extends-after p params i s s' b ref e h x =
      let (is, added, names, matched) = h x in
      (
        i ∷ is,
        added ∙ append_assoc s.new_args (i ∷ []) is,
        names ∙ names_of-set_reference i ref s.args,
        (
          index_of-get_elem? p.name (names_of s.args) i e,
          subst (λ ns. Match ns params is) (names_of-set_reference i ref s.args) matched,
        ),
      )

  referred-Extends :
      (p : Param) (params : List Param) (i : ℕ) (s : ArgState)
      (r : Binder × (String ⊎ TypeReference))
      → index_of p.name (names_of s.args) ≡ some i
      → ((s' : ArgState) → Ensures (Extends params s') (bind_args type_reference params s'))
      → Ensures
          (Extends (p ∷ params) s)
          (referred type_reference i s (bind_args type_reference params) r)
  referred-Extends p params i s (b, inl err) e h = λ x. cc
  referred-Extends p params i s (b, inr ref) e h =
      Ensures-map (Extends params (after i s b ref)) (Extends (p ∷ params) s)
        (bind_args type_reference params (after i s b ref))
        (λ s' x. Extends-after p params i s s' b ref e x) (h (after i s b ref))

  bind_args-Extends :
      (params : List Param) (s : ArgState)
      → Ensures (Extends params s) (bind_args type_reference params s)
  unfolding bind_args
  bind_args-Extends [] s = λ e. ([], sym (append-nil s.new_args), refl, tt)
  bind_args-Extends (p ∷ params) s =
      at_index (index_of p.name (names_of s.args))
        (found_arg s.args (index_of p.name (names_of s.args))) refl
        (λ s'. bind_args-Extends params s')
    where
      at_index :
          (o : Option ℕ) (a : Option Argument)
          → index_of p.name (names_of s.args) ≡ o
          → ((s' : ArgState) → Ensures (Extends params s') (bind_args type_reference params s'))
          → Ensures
              (Extends (p ∷ params) s)
              (with_arg type_reference p o a s (bind_args type_reference params))
      at_index none none e h = λ x. cc
      at_index none (some a) e h = λ x. cc
      at_index (some i) none e h = λ x. cc
      at_index (some i) (some a) e h =
          Ensures-bind (Extends (p ∷ params) s) (type_reference a.type (some p.type) s.binder)
            (referred type_reference i s (bind_args type_reference params))
            (λ r e'. referred-Extends p params i s r e h)

  -- If bindArgs reports no error, the field has one argument for each parameter, in the order of the
  -- parameters and with their names up to case.
  pub bind_args-Match :
      (params : List Param) (s s' : ArgState)
      → bind_args type_reference params s ≡ ok s'
      → s.new_args ≡ []
      → s'.err ≡ none
      → Match (names_of s'.args) params s'.new_args
  bind_args-Match params s s' e empty fine =
      let (is, added, names, matched) =
        Ensures-eq (Extends params s) (bind_args type_reference params s) s' e
          (bind_args-Extends params s) fine in
      subst (λ ns. Match ns params s'.new_args) (sym names)
        (subst (Match (names_of s.args) params) (sym (added ∙ ap (λ before. before ++ is) empty))
          matched)
