-- ===== src/Codegen/Data/Complete.antt =====
-- codegen/data.go: what holds of the data that `BuildData` returns.
use mathlib.Core.Path.{subst}
use fastgql.Prelude.Sorting.{IsIn-sort}
use fastgql.Prelude.{
  IsIn, some-injective, ◌≡◌, refl, sym, ap, ◌∙◌, ℕ, String, Bool, true, false, Option, none, some,
  List, [], ◌∷◌, ◌++◌, inl, inr, All, Bool-cases, if◌then◌else◌,
}
use fastgql.Prelude.Outcome.{Outcome, ok, panic, out_of_fuel}
use fastgql.Prelude.Text.{Bytes}
use fastgql.Prelude.Maps.{Map}
use fastgql.Code.{GoType}
use fastgql.Config.Binder.{TypeReference, build_types}
use fastgql.Config.Binder.Lookup.{Binder, type_reference}
use fastgql.Config.Binder.Registry.{AllRegistered, build_types-AllRegistered}
use fastgql.Codegen.Builder.{Build, ◌>>=◌, pure, checked, >>=-eq-ok, pure-eq}
use fastgql.Codegen.Binding.{equal_fold}
use fastgql.Codegen.Building.{Field}
use fastgql.Codegen.Directives.{Directive, DirectiveDefinition, build_directives}
use fastgql.Codegen.Objects.{FieldDefinition, Definition, Object, Program, build_field}
use fastgql.Codegen.Data.{
  Data, object_name, by_name, append_fields, or_error, type_field, schema_field, start, finished,
  types_built, if_valid, all_valid, referenced, add_types, inject_introspection_roots, build_data,
}

abbrev with_fields : List Field → Object → Object
with_fields fields o = record o { fields = o.fields ++ fields }

-- The object that ByName finds is found again, with the fields that were appended to it.
by_name-append_fields :
    (name : Bytes) (fields : List Field) (os : List Object) (o : Object)
    → by_name name os ≡ some o
    → by_name name (append_fields name fields os) ≡ some (record o { fields = o.fields ++ fields })
unfolding by_name append_fields
by_name-append_fields name fields [] o e = cc
by_name-append_fields name fields (x ∷ os) o e = elim (Bool-cases (equal_fold x.name name)) [
  | inl same ↦ rw same (rw same (ap (λ y. some (with_fields fields y)) (here same e)))
  | inr other ↦ rw other (rw other (by_name-append_fields name fields os o (there other e)))
]
  where
    here :
        equal_fold x.name name ≡ true
        → (if equal_fold x.name name then some x else by_name name os) ≡ some o
        → x ≡ o
    here same h = some-injective (rw same at h)

    there :
        equal_fold x.name name ≡ false
        → (if equal_fold x.name name then some x else by_name name os) ≡ some o
        → by_name name os ≡ some o
    there other h = rw other at h

by_name-IsIn :
    (name : Bytes) (os : List Object) (o : Object)
    → by_name name os ≡ some o
    → (equal_fold o.name name ≡ true) × IsIn o os
unfolding by_name
by_name-IsIn name [] o e = cc
by_name-IsIn name (x ∷ os) o e = elim (Bool-cases (equal_fold x.name name)) [
  | inl same ↦
      let here = some-injective (rw same at e) in
      (subst (λ y. equal_fold y.name name ≡ true) here same, inl here)
  | inr other ↦ let (named, rest) = by_name-IsIn name os o (rw other at e) in (named, inr rest)
]

or_error-eq :
    {A : Type 0} (text : String) (o : Option A) {a : A} {b b' : Binder}
    → checked (or_error text o) b ≡ ok (b', inr a)
    → o ≡ some a
or_error-eq text none e = cc
or_error-eq text (some x) e = cc

-- The field is what buildField makes of that definition for some object.
pub data Builds (program : Program) (f : FieldDefinition) (field : Field) : Type 0 where
  builds :
      (directives : Map Directive) (obj : Object) (b b' : Binder)
      → build_field program directives obj f b ≡ ok (b', inr field)
      → Builds program f field

module _ (program : Program) (implements : GoType → GoType → Bool)
    (possible_types : Bytes → List Bytes) (user_defined : Bytes → Bool) (basic_name : ℕ → Bytes)
    (package_errors : List String) where
  -- The root of the queries is one of the objects, has the name of the schema's query type up to case,
  -- and its last two fields are __type and __schema; no invalid type was seen, and all references of
  -- the binder are registered.
  pub record IsComplete (b : Binder) (data' : Data) : Type 0 where
    pub root : Object
    pub is_root : data'.query_root ≡ some root
    pub query : Bytes
    pub of_schema_query : program.query ≡ some query
    pub named : equal_fold root.name query ≡ true
    pub listed : IsIn root data'.objects
    pub fields : List Field
    pub type : Field
    pub schema : Field
    pub introspects : root.fields ≡ fields ++ type ∷ schema ∷ []
    pub of_type : Builds program type_field type
    pub of_schema : Builds program schema_field schema
    pub valid : b.saw_invalid ≡ false
    pub registered :
        All (λ ref. AllRegistered basic_name data'.referenced_types ref.gql ref.go ref) b.references

  abbrev Injected : Bytes → Data → Type 0
  Injected query s =
      (root : Object) × (fields : List Field) × (type : Field) × (schema : Field) × (by_name query
          s.objects
        ≡ some root)
      × (root.fields ≡ fields ++ type ∷ schema ∷ [])
      × Builds program type_field type
      × Builds program schema_field schema

  inject_introspection_roots-Injected :
      (directives : Map Directive) (query : Bytes) (s s' : Data) (b b' : Binder)
      → inject_introspection_roots program implements possible_types user_defined directives query s
          b
        ≡ ok (b', inr s')
      → Injected query s'
  unfolding inject_introspection_roots
  inject_introspection_roots-Injected directives query s s' b b' e =
      let (b1, obj, found, rest) =
        >>=-eq-ok (checked (or_error "root query type must be defined" (by_name query s.objects)))
          (λ o. build_field program directives o type_field >>= λ type.
            build_field program directives o schema_field >>= λ schema.
            pure (record s { objects = append_fields query (type ∷ schema ∷ []) s.objects }))
          e in
      let (b2, type, built_type, rest') =
        >>=-eq-ok (build_field program directives obj type_field)
          (λ type. build_field program directives obj schema_field >>= λ schema.
            pure (record s { objects = append_fields query (type ∷ schema ∷ []) s.objects }))
          rest in
      let (b3, schema, built_schema, last) =
        >>=-eq-ok (build_field program directives obj schema_field)
          (λ schema.
            pure (record s { objects = append_fields query (type ∷ schema ∷ []) s.objects }))
          rest' in
      subst (Injected query) (pure-eq last).0 (
        with_fields (type ∷ schema ∷ []) obj,
        obj.fields,
        type,
        schema,
        by_name-append_fields query (type ∷ schema ∷ []) s.objects obj (or_error-eq _ _ found),
        refl,
        builds directives obj b1 b2 built_type,
        builds directives obj b2 b3 built_schema,
      )

  if_valid-eq :
      (s s' : Data) (b b' : Binder)
      → if_valid package_errors s b ≡ ok (b', inr s')
      → (s ≡ s') × (b ≡ b') × (b.saw_invalid ≡ false)
  if_valid-eq s s' b b' e = by_flag b.saw_invalid refl e
    where
      by_flag :
          (flag : Bool)
          → b.saw_invalid ≡ flag
          → checked (all_valid package_errors s flag) b ≡ ok (b', inr s')
          → (s ≡ s') × (b ≡ b') × (b.saw_invalid ≡ false)
      by_flag true h x = cc
      by_flag false h x = (cc, cc, h)

  types_built-eq :
      (m : Map TypeReference) (b b' : Binder)
      → types_built basic_name b ≡ ok (b', inr m)
      → (build_types basic_name b.references [] ≡ ok m) × (b ≡ b')
  types_built-eq m b b' e = at_result (build_types basic_name b.references []) refl e
    where
      at_result :
          (r : Outcome (Map TypeReference))
          → build_types basic_name b.references [] ≡ r
          → referenced r b ≡ ok (b', inr m)
          → (build_types basic_name b.references [] ≡ ok m) × (b ≡ b')
      at_result (ok m') h x = (h ∙ cc, cc)
      at_result (panic text) h x = cc
      at_result out_of_fuel h x = cc

  -- The steps of `build_data` from each one on.
  abbrev from_references : Bytes → Data → Map TypeReference → Build Data
  from_references query s refs = if_valid package_errors (finished program query s refs)

  abbrev from_roots : Bytes → Data → Build Data
  from_roots query s = types_built basic_name >>= from_references query s

  abbrev from_query : Map Directive → Data → Bytes → Build Data
  from_query directives s query =
      inject_introspection_roots program implements possible_types user_defined directives query s
      >>= from_roots query

  abbrev from_types : Map Directive → Data → Build Data
  from_types directives s =
      checked (or_error "query entry point missing" program.query) >>= from_query directives s

  from_roots-IsComplete :
      (query : Bytes) (s data' : Data) (b b' : Binder)
      → program.query ≡ some query
      → Injected query s
      → from_roots query s b ≡ ok (b', inr data')
      → IsComplete b' data'
  from_roots-IsComplete query s data' b b' of_schema_query
        (root, fields, type, schema, found, introspects, of_type, of_schema) e =
      let (named, listed) = by_name-IsIn query s.objects root found in
      let (b1, refs, registers, last) =
        >>=-eq-ok {b = b} (types_built basic_name) (from_references query s) e in
      let (registered, same) = types_built-eq refs b b1 registers in
      let (done, same', valid) = if_valid-eq (finished program query s refs) data' b1 b' last in
      record {
        root = root;
        is_root = ap (λ (d : Data). d.query_root) (sym done) ∙ found;
        query = query;
        of_schema_query = of_schema_query;
        named = named;
        listed =
            subst (λ (d : Data). IsIn root d.objects) done
              (IsIn-sort object_name root s.objects listed);
        fields = fields;
        type = type;
        schema = schema;
        introspects = introspects;
        of_type = of_type;
        of_schema = of_schema;
        valid = subst (λ x. x.saw_invalid ≡ false) same' valid;
        registered =
            subst
              (λ x.
                All (λ ref. AllRegistered basic_name data'.referenced_types ref.gql ref.go ref)
                  x.references)
              (same ∙ same')
              (subst
                (λ d.
                  All (λ ref. AllRegistered basic_name d.referenced_types ref.gql ref.go ref)
                    b.references)
                done (build_types-AllRegistered basic_name b.references refs registered));
      }

  -- If BuildData returns data, its root of the queries is one of its objects, one with the name of the
  -- schema's query type up to case, whose last two fields are those built for __type and __schema; no invalid Go type was seen; and every reference of the binder, those for
  -- introspection included, has an entry for the same schema type under its key.
  pub build_data-IsComplete :
      (schema_directives : List (Bytes × DirectiveDefinition)) (types : List Definition)
      (b b' : Binder) (data' : Data)
      → build_data program implements possible_types user_defined basic_name package_errors
          schema_directives types b
        ≡ ok (b', inr data')
      → IsComplete b' data'
  unfolding build_data
  build_data-IsComplete schema_directives types b b' data' e =
      let (b1, directives, built, rest) =
        >>=-eq-ok {b = b}
          (build_directives program.value_of program.skip_runtime
            (type_reference program.known program.string_fuel) schema_directives [])
          (λ ds.
            add_types program implements possible_types user_defined ds types (start ds)
            >>= from_types ds)
          e in
      let (b2, s, collected, rest2) =
        >>=-eq-ok {b = b1}
          (add_types program implements possible_types user_defined directives types
            (start directives))
          (from_types directives) rest in
      let (b3, query, has_query, rest3) =
        >>=-eq-ok {b = b2} (checked (or_error "query entry point missing" program.query))
          (from_query directives s) rest2 in
      let (b4, s', injected, rest4) =
        >>=-eq-ok {b = b3}
          (inject_introspection_roots program implements possible_types user_defined directives
            query s)
          (from_roots query) rest3 in
      from_roots-IsComplete query s' data' b4 b' (or_error-eq _ _ has_query)
        (inject_introspection_roots-Injected directives query s s' b3 b4 injected) rest4
