-- ===== src/Config/Consistent.antt =====
-- codegen/config/config.go: what a configuration that passes `check` keeps to.
use mathlib.Core.Path.{subst}
use fastgql.Prelude.{
  if◌then◌else◌, ◌≡◌, refl, sym, ap, ◌∙◌, inl, inr, Bool, true, false, List, [], Bool-cases,
}
use fastgql.Prelude.Outcome.{ok-injective, ok}
use fastgql.Prelude.Text.{bytes_eq, Bytes}
use fastgql.Prelude.Maps.{Map}
use fastgql.Config.{
  type_map_valid, Env, is_defined, import_path, check_package, resolver_defined,
  resolver_import_path,
}
use fastgql.Config.Checking.{
  consistent, check, check_rest, check_federation, beside_exec, Config, FilenamePackage, go, stop,
  ◌>>◌, file_of, staged, check_exec, check_model, check_resolver_section,
}
use fastgql.Config.Files.{consistent-IsListed, IsListed, append_at-IsListed}
use fastgql.Config.Stages.{
  apart, Goes, Goes->>, Goes-eq, resolver_file, ListsPackage, ListsResolver, Checked,
  ListsPackage-append_at, ListsResolver-append_at, staged-Goes, exec-Goes, model-Goes,
  resolver-Goes,
}

module _ (env : Env) (start : Config) where
  -- All sections have been checked.
  record Listed (c : Config) (fs : Map (List FilenamePackage)) : Type 0 where
    exec_listed : ListsPackage env start c.exec "exec" fs
    model_listed : is_defined start.model ≡ true → ListsPackage env start c.model "model" fs
    resolver_listed : resolver_defined start.resolver ≡ true → ListsResolver env start c.resolver fs
    federation_listed :
        is_defined start.federation ≡ true → ListsPackage env start c.federation "federation" fs

  beside_exec-Goes :
      (c : Config) (fs : Map (List FilenamePackage))
      → Listed c fs
      → Goes Listed (beside_exec env c fs)
  unfolding beside_exec
  beside_exec-Goes c fs h =
      elim (Bool-cases (bytes_eq (import_path env c.federation) (import_path env c.exec))) [
        | inl e ↦ rw (Goes, e) h
        | inr e ↦ rw (Goes, e) tt
      ]

  federation-Goes :
      (c : Config) (fs : Map (List FilenamePackage))
      → Checked env start true true true c fs
      → Goes Listed (check_federation env c fs)
  unfolding check_federation
  federation-Goes c fs h = elim (Bool-cases (is_defined c.federation)) [
    | inl e ↦ rw e (
        let federation = (check_package env c.federation).0 in
        let path = import_path env federation in
        let file = file_of federation "federation" in
        Goes->> Listed Listed
          (staged env (record c { federation = federation }) "federation" federation
            (check_package env c.federation).1 fs)
          (beside_exec env)
          (staged-Goes env start Listed (record c { federation = federation }) "federation"
            federation (check_package env c.federation).1 fs
            (record {
              exec_listed =
                  ListsPackage-append_at env start c.exec "exec" path file fs (h.exec_listed refl);
              model_listed = λ d.
                  ListsPackage-append_at env start c.model "model" path file fs
                    (h.model_listed refl d);
              resolver_listed = λ d.
                  ListsResolver-append_at env start c.resolver path file fs
                    (h.resolver_listed refl d);
              federation_listed = λ d. append_at-IsListed path file fs;
            }))
          (λ c' fs' h'. beside_exec-Goes c' fs' h'))
    | inr e ↦
        rw (Goes, e)
          (record {
            exec_listed = h.exec_listed refl;
            model_listed = h.model_listed refl;
            resolver_listed = h.resolver_listed refl;
            federation_listed = λ d. absurd (apart (sym (ap is_defined h.federation_kept) ∙ e) d);
          })
  ]

  rest-Goes :
      (c : Config) (fs : Map (List FilenamePackage))
      → Listed c fs
      → Goes (λ c fs. Listed c fs × (consistent fs ≡ true)) (check_rest env c fs)
  unfolding check_rest
  rest-Goes c fs h = by_tests c.federated (consistent fs) refl
    where
      by_tests :
          (federated same : Bool)
          → consistent fs ≡ same
          → Goes
              (λ c fs. Listed c fs × (consistent fs ≡ true))
              (if federated
                then ok (stop c "federated has been removed")
                else if same
                then ok (go c fs)
                else ok (stop c "the same import path with different package names"))
      by_tests true same e = tt
      by_tests false true e = (h, e)
      by_tests false false e = tt

  check-Goes : Goes (λ c fs. Listed c fs × (consistent fs ≡ true)) (check env start)
  unfolding check
  check-Goes = elim (Bool-cases (type_map_valid start.models)) [
    | inl e ↦ rw e (
        Goes->> Listed (λ c fs. Listed c fs × (consistent fs ≡ true))
          (check_exec env start []
            >> check_model env
            >> check_resolver_section env
            >> check_federation env)
          (check_rest env)
          (Goes->> (Checked env start true true true) Listed
            (check_exec env start [] >> check_model env >> check_resolver_section env)
            (check_federation env)
            (Goes->> (Checked env start true true false) (Checked env start true true true)
              (check_exec env start [] >> check_model env) (check_resolver_section env)
              (Goes->> (Checked env start true false false) (Checked env start true true false)
                (check_exec env start []) (check_model env) (exec-Goes env start)
                (model-Goes env start))
              (resolver-Goes env start))
            federation-Goes)
          rest-Goes)
    | inr e ↦ rw (Goes, e) tt
  ]

  -- The file that a section of a checked configuration generates, and its import path.
  pub data IsFileOf (c : Config) (path : Bytes) : FilenamePackage → Type 0 where
    of_exec : import_path env c.exec ≡ path → IsFileOf c path (file_of c.exec "exec")
    of_model :
        is_defined start.model ≡ true
        → import_path env c.model ≡ path
        → IsFileOf c path (file_of c.model "model")
    of_resolver :
        resolver_defined start.resolver ≡ true
        → resolver_import_path env c.resolver ≡ ok path
        → IsFileOf c path (resolver_file c.resolver)
    of_federation :
        is_defined start.federation ≡ true
        → import_path env c.federation ≡ path
        → IsFileOf c path (file_of c.federation "federation")

  IsFileOf-IsListed :
      (c : Config) (path : Bytes) (f : FilenamePackage) (fs : Map (List FilenamePackage))
      → Listed c fs
      → IsFileOf c path f
      → IsListed path f fs
  IsFileOf-IsListed c path f fs h (of_exec e) = subst (λ p. IsListed p f fs) e h.exec_listed
  IsFileOf-IsListed c path f fs h (of_model d e) = subst (λ p. IsListed p f fs) e (h.model_listed d)
  IsFileOf-IsListed c path f fs h (of_resolver d e) =
      let (own, e', listed) = h.resolver_listed d in
      subst (λ p. IsListed p f fs) (ok-injective (sym e' ∙ e)) listed
  IsFileOf-IsListed c path f fs h (of_federation d e) =
      subst (λ p. IsListed p f fs) e (h.federation_listed d)

  -- If check returns no error, the files of exec and of the sections for model, resolver and federation
  -- that were defined have the same package name wherever they have the same import path.
  pub check-IsFileOf :
      (c : Config) (fs : Map (List FilenamePackage)) (path : Bytes) (a b : FilenamePackage)
      → check env start ≡ ok (go c fs)
      → IsFileOf c path a
      → IsFileOf c path b
      → bytes_eq a.package_name b.package_name ≡ true
  check-IsFileOf c fs path a b e ha hb =
      let (h, same) =
        Goes-eq (λ c fs. Listed c fs × (consistent fs ≡ true)) (check env start) c fs check-Goes
          e in
      consistent-IsListed path a b fs same (IsFileOf-IsListed c path a fs h ha)
        (IsFileOf-IsListed c path b fs h hb)
