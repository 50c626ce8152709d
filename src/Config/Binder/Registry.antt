-- ===== src/Config/Binder/Registry.antt =====
-- codegen/type.go: the references that have marshal functions.
use fastgql.Prelude.{
  ◌≡◌, refl, sym, ap, ◌∙◌, Option, none, some, List, [], ◌∷◌, All, inl, inr, Bool-cases, ℕ,
  some-injective,
}
use fastgql.Prelude.Outcome.{
  Outcome, ok, Ensures, Ensures-bind, Ensures-eq, Ensures-map, Ensures-then,
}
use fastgql.Prelude.Text.{Bytes, bytes_eq}
use fastgql.Prelude.Maps.{Map, find, put, find-put_same, find-put_other, bytes_eq-eq}
use fastgql.Code.{GoType}
use fastgql.Config.Binder.{
  GqlType, named_type, list_of, TypeReference, with_types, uniqueness_key, gql_string, checked,
  entered, slice_elem, if_slice, process_at, build_types,
}

module _ (basic_name : ℕ → Bytes) where
  -- Under the key of the reference is one for the same schema type.
  pub record Registered (ret : Map TypeReference) (ref : TypeReference) : Type 0 where
    pub key : Bytes
    pub has_key : uniqueness_key basic_name ref ≡ ok key
    pub entry : TypeReference
    pub found : find key ret ≡ some entry
    pub same : gql_string entry.gql ≡ gql_string ref.gql

  abbrev pub OfSlice : Option GoType → (GoType → Type 0) → Type 0
  OfSlice none P = Unit
  OfSlice (some e) P = P e

  -- So is it for all references that Elem leads to through slices.
  abbrev pub AllRegistered : Map TypeReference → GqlType → GoType → TypeReference → Type 0
  AllRegistered ret (named_type name non_null) g ref =
      Registered ret (with_types g (named_type name non_null) ref)
  AllRegistered ret (list_of q non_null) g ref =
      Registered ret (with_types g (list_of q non_null) ref)
      × OfSlice (slice_elem g) (λ e. AllRegistered ret q e ref)

  -- Nothing that is registered is lost.
  abbrev Keeps : Map TypeReference → Map TypeReference → Type 0
  Keeps ret ret' = (ref : TypeReference) → Registered ret ref → Registered ret' ref

  AllRegistered-Keeps :
      (ret ret' : Map TypeReference) (q : GqlType) (g : GoType) (ref : TypeReference)
      → Keeps ret ret'
      → AllRegistered ret q g ref
      → AllRegistered ret' q g ref
  AllRegistered-Keeps ret ret' (named_type name n) g ref keeps h =
      keeps (with_types g (named_type name n) ref) h
  AllRegistered-Keeps ret ret' (list_of q n) g ref keeps (h, hs) = (
    keeps (with_types g (list_of q n) ref) h,
    at_elem (λ e. AllRegistered-Keeps ret ret' q e ref keeps) (slice_elem g) hs,
  )
    where
      at_elem :
          ((e : GoType) → AllRegistered ret q e ref → AllRegistered ret' q e ref)
          → (o : Option GoType) → OfSlice o (λ e. AllRegistered ret q e ref)
          → OfSlice o (λ e. AllRegistered ret' q e ref)
      at_elem k none x = tt
      at_elem k (some e) x = k e x

  same_key : {a : Outcome Bytes} {k k' : Bytes} → a ≡ ok k → a ≡ ok k' → k ≡ k'
  same_key e e' = cc

  put-Keeps :
      (k : Bytes) (ref : TypeReference) (ret : Map TypeReference)
      → ((old : TypeReference) → find k ret ≡ some old → gql_string old.gql ≡ gql_string ref.gql)
      → Keeps ret (put k ref ret)
  put-Keeps k ref ret agrees other h = elim (Bool-cases (bytes_eq h.key k)) [
    | inl here ↦ record {
      key = h.key;
      has_key = h.has_key;
      entry = ref;
      found = ap (λ x. find x (put k ref ret)) (bytes_eq-eq h.key k here) ∙ find-put_same k ref ret;
      same =
          sym (agrees h.entry (ap (λ x. find x ret) (sym (bytes_eq-eq h.key k here)) ∙ h.found))
          ∙ h.same;
    }
    | inr elsewhere ↦ record {
      key = h.key;
      has_key = h.has_key;
      entry = h.entry;
      found = find-put_other h.key k ref ret elsewhere ∙ h.found;
      same = h.same;
    }
  ]

  abbrev Enters : TypeReference → Map TypeReference → Map TypeReference → Type 0
  Enters ref ret ret' = Keeps ret ret' × Registered ret' ref

  put-Registered :
      (k : Bytes) (ref : TypeReference) (ret : Map TypeReference)
      → uniqueness_key basic_name ref ≡ ok k
      → Registered (put k ref ret) ref
  put-Registered k ref ret e = record {
    key = k;
    has_key = e;
    entry = ref;
    found = find-put_same k ref ret;
    same = refl;
  }

  checked-Enters :
      (k : Bytes) (ref : TypeReference) (ret : Map TypeReference) (existing : Option TypeReference)
      → uniqueness_key basic_name ref ≡ ok k
      → find k ret ≡ existing
      → Ensures (Enters ref ret) (checked existing ref (put k ref ret))
  checked-Enters k ref ret none e f =
      (put-Keeps k ref ret (λ old f'. cc), put-Registered k ref ret e)
  checked-Enters k ref ret (some old) e f =
      elim (Bool-cases (bytes_eq (gql_string old.gql) (gql_string ref.gql))) [
        | inl same ↦
            rw (Ensures, same)
              (
                put-Keeps k ref ret (λ old' f'.
                    ap (λ r. gql_string r.gql) (some-injective (sym f' ∙ f))
                    ∙ bytes_eq-eq (gql_string old.gql) (gql_string ref.gql) same),
                put-Registered k ref ret e,
              )
        | inr differs ↦ rw (Ensures, differs) tt
      ]

  entered-Enters :
      (ref : TypeReference) (ret : Map TypeReference)
      → Ensures (Enters ref ret) (entered basic_name ref ret)
  unfolding entered
  entered-Enters ref ret =
      Ensures-bind (Enters ref ret) (uniqueness_key basic_name ref)
        (λ key. checked (find key ret) ref (put key ref ret))
        (λ k e. checked-Enters k ref ret (find k ret) e refl)

  abbrev Processes :
      GqlType → GoType → TypeReference → Map TypeReference → Map TypeReference → Type 0
  Processes q g ref ret ret' = Keeps ret ret' × AllRegistered ret' q g ref

  process_at-Processes :
      (q : GqlType) (g : GoType) (ref : TypeReference) (ret : Map TypeReference)
      → Ensures (Processes q g ref ret) (process_at basic_name q g ref ret)
  unfolding process_at
  process_at-Processes (named_type name n) g ref ret =
      entered-Enters (with_types g (named_type name n) ref) ret
  process_at-Processes (list_of q n) g ref ret =
      let here = with_types g (list_of q n) ref in
      Ensures-bind (Processes (list_of q n) g ref ret) (entered basic_name here ret)
        (if_slice (slice_elem g) (λ e. process_at basic_name q e ref))
        λ ret' e.
          below ret'
            (Ensures-eq (Enters here ret) (entered basic_name here ret) ret' e
              (entered-Enters here ret))
            (slice_elem g) (λ x. process_at-Processes q x ref ret')
    where
      below :
          (ret' : Map TypeReference)
          → Enters (with_types g (list_of q n) ref) ret ret'
          → (o : Option GoType)
          → ((x : GoType) → Ensures (Processes q x ref ret') (process_at basic_name q x ref ret'))
          → Ensures
              (λ ret''.
                Keeps ret ret''
                × (Registered ret'' (with_types g (list_of q n) ref)
                    × OfSlice o (λ e. AllRegistered ret'' q e ref)))
              (if_slice o (λ e. process_at basic_name q e ref) ret')
      below ret' (keeps, reg) none h = (keeps, (reg, tt))
      below ret' (keeps, reg) (some x) h =
          Ensures-map (Processes q x ref ret')
            (λ ret''.
              Keeps ret ret''
              × (Registered ret'' (with_types g (list_of q n) ref) × AllRegistered ret'' q x ref))
            (process_at basic_name q x ref ret')
            (λ ret'' p. (λ r z. p.0 r (keeps r z), (p.0 (with_types g (list_of q n) ref) reg, p.1)))
            (h x)

  abbrev BuildsAll : List TypeReference → Map TypeReference → Map TypeReference → Type 0
  BuildsAll refs ret ret' = Keeps ret ret' × All (λ ref. AllRegistered ret' ref.gql ref.go ref) refs

  build_types-BuildsAll :
      (refs : List TypeReference) (ret : Map TypeReference)
      → Ensures (BuildsAll refs ret) (build_types basic_name refs ret)
  unfolding build_types
  build_types-BuildsAll [] ret = (λ r h. h, tt)
  build_types-BuildsAll (ref ∷ refs) ret =
      Ensures-then (Processes ref.gql ref.go ref ret) (BuildsAll (ref ∷ refs) ret)
        (process_at basic_name ref.gql ref.go ref ret) (build_types basic_name refs)
        (λ ret' p.
          Ensures-map (BuildsAll refs ret') (BuildsAll (ref ∷ refs) ret)
            (build_types basic_name refs ret')
            (λ ret'' more. (
              λ r z. more.0 r (p.0 r z),
              (AllRegistered-Keeps ret' ret'' ref.gql ref.go ref more.0 p.1, more.1),
            ))
            (build_types-BuildsAll refs ret'))
        (process_at-Processes ref.gql ref.go ref ret)

  -- If buildTypes returns, then each reference of the binder, and each that it leads to by Elem through
  -- slices, has an entry for the same schema type under its key: its marshal functions are generated.
  pub build_types-AllRegistered :
      (refs : List TypeReference) (ret : Map TypeReference)
      → build_types basic_name refs [] ≡ ok ret
      → All (λ ref. AllRegistered ret ref.gql ref.go ref) refs
  build_types-AllRegistered refs ret e =
      (Ensures-eq (BuildsAll refs []) (build_types basic_name refs []) ret e
        (build_types-BuildsAll refs [])).1
