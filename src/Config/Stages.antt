-- ===== src/Config/Stages.antt =====
-- codegen/config/config.go: what the stages of `check` list, one after the other.
use mathlib.Core.Path.{subst}
use fastgql.Prelude.{
  ◌≡◌, refl, sym, ap, ◌∙◌, inl, inr, Bool, true, false, Option, none, some, List, [], String,
  Bool-cases,
}
use fastgql.Prelude.Outcome.{Outcome, ok, panic, out_of_fuel, ◌>>=◌}
use fastgql.Prelude.Text.{Bytes}
use fastgql.Prelude.Maps.{Map}
use fastgql.Config.{
  Env, PackageConfig, ResolverConfig, is_defined, import_path, check_package, resolver_defined,
  resolver_import_path,
}
use fastgql.Config.Checking.{
  Config, FilenamePackage, Stage, go, stop, ◌>>◌, append_at, file_of, staged, check_exec,
  check_model, check_resolver, check_resolver_section, resolver_staged,
}
use fastgql.Config.Files.{IsListed, append_at-IsListed, IsListed-append_at}

pub apart : {b : Bool} → b ≡ false → b ≡ true → ⊥
apart {b} e e' = clash (sym e ∙ e')
  where
    clash : false ≡ true → ⊥
    clash x = cc

-- What holds if a stage goes on.
abbrev pub Goes : (Config → Map (List FilenamePackage) → Type 0) → Outcome Stage → Type 0
Goes P (ok (go c fs)) = P c fs
Goes P (ok (stop c err)) = Unit
Goes P (panic m) = Unit
Goes P out_of_fuel = Unit

pub Goes->> :
    (P Q : Config → Map (List FilenamePackage) → Type 0) (stage : Outcome Stage)
    (next : Config → Map (List FilenamePackage) → Outcome Stage)
    → Goes P stage
    → ((c : Config) (fs : Map (List FilenamePackage)) → P c fs → Goes Q (next c fs))
    → Goes Q (stage >> next)
Goes->> P Q (ok (go c fs)) next h f = f c fs h
Goes->> P Q (ok (stop c err)) next h f = tt
Goes->> P Q (panic m) next h f = tt
Goes->> P Q out_of_fuel next h f = tt

pub Goes-eq :
    (P : Config → Map (List FilenamePackage) → Type 0) (stage : Outcome Stage) (c : Config)
    (fs : Map (List FilenamePackage))
    → Goes P stage
    → stage ≡ ok (go c fs)
    → P c fs
Goes-eq P stage c fs h e = subst (Goes P) e h

abbrev pub resolver_file : ResolverConfig → FilenamePackage
resolver_file r = record {
  filename = r.filename;
  package_name = r.package_name;
  declaree = "resolver";
}

module _ (env : Env) (start : Config) where
  abbrev pub ListsPackage : PackageConfig → String → Map (List FilenamePackage) → Type 0
  ListsPackage p section fs = IsListed (import_path env p) (file_of p section) fs

  abbrev pub ListsResolver : ResolverConfig → Map (List FilenamePackage) → Type 0
  ListsResolver r fs =
      (path : Bytes) × (resolver_import_path env r ≡ ok path) × IsListed path (resolver_file r) fs

  -- The sections of the configuration that have been checked are listed, the others as they were.
  pub record Checked (exec model resolver : Bool) (c : Config) (fs : Map (List FilenamePackage))
      : Type 0 where
    pub exec_listed : exec ≡ true → ListsPackage c.exec "exec" fs
    pub model_listed :
        model ≡ true → is_defined start.model ≡ true → ListsPackage c.model "model" fs
    pub resolver_listed :
        resolver ≡ true → resolver_defined start.resolver ≡ true → ListsResolver c.resolver fs
    pub model_kept : model ≡ false → c.model ≡ start.model
    pub resolver_kept : resolver ≡ false → c.resolver ≡ start.resolver
    pub federation_kept : c.federation ≡ start.federation

  pub ListsPackage-append_at :
      (p : PackageConfig) (section : String) (path : Bytes) (g : FilenamePackage)
      (fs : Map (List FilenamePackage))
      → ListsPackage p section fs
      → ListsPackage p section (append_at path g fs)
  ListsPackage-append_at p section path g fs h =
      IsListed-append_at (import_path env p) path (file_of p section) g fs h

  pub ListsResolver-append_at :
      (r : ResolverConfig) (path : Bytes) (g : FilenamePackage) (fs : Map (List FilenamePackage))
      → ListsResolver r fs
      → ListsResolver r (append_at path g fs)
  ListsResolver-append_at r path g fs (own, e, h) =
      (own, e, IsListed-append_at own path (resolver_file r) g fs h)

  pub staged-Goes :
      (P : Config → Map (List FilenamePackage) → Type 0) (c : Config) (section : String)
      (p : PackageConfig) (err : Option String) (fs : Map (List FilenamePackage))
      → P c (append_at (import_path env p) (file_of p section) fs)
      → Goes P (staged env c section p err fs)
  unfolding staged
  staged-Goes P c section p none fs h = h
  staged-Goes P c section p (some err) fs h = tt

  pub exec-Goes : Goes (Checked true false false) (check_exec env start [])
  unfolding check_exec
  exec-Goes =
      let exec = (check_package env start.exec).0 in
      staged-Goes (Checked true false false) (record start { exec = exec }) "exec" exec
        (check_package env start.exec).1 []
        (record {
          exec_listed = λ _. append_at-IsListed (import_path env exec) (file_of exec "exec") [];
          model_listed = λ e. cc;
          resolver_listed = λ e. cc;
          model_kept = λ _. refl;
          resolver_kept = λ _. refl;
          federation_kept = refl;
        })

  pub model-Goes :
      (c : Config) (fs : Map (List FilenamePackage))
      → Checked true false false c fs
      → Goes (Checked true true false) (check_model env c fs)
  unfolding check_model
  model-Goes c fs h = elim (Bool-cases (is_defined c.model)) [
    | inl e ↦ rw e (
        let model = (check_package env c.model).0 in
        let path = import_path env model in
        let file = file_of model "model" in
        staged-Goes (Checked true true false) (record c { model = model }) "model" model
          (check_package env c.model).1 fs
          (record {
            exec_listed = λ x. ListsPackage-append_at c.exec "exec" path file fs (h.exec_listed x);
            model_listed = λ _ _. append_at-IsListed path file fs;
            resolver_listed = λ e'. cc;
            model_kept = λ e'. cc;
            resolver_kept = h.resolver_kept;
            federation_kept = h.federation_kept;
          }))
    | inr e ↦
        rw (Goes, e)
          (record {
            exec_listed = h.exec_listed;
            model_listed = λ _ e'. absurd (apart (sym (ap is_defined (h.model_kept refl)) ∙ e) e');
            resolver_listed = λ e'. cc;
            model_kept = λ e'. cc;
            resolver_kept = h.resolver_kept;
            federation_kept = h.federation_kept;
          })
  ]

  resolver_staged-Goes :
      (c : Config) (r : ResolverConfig) (err : Option String) (fs : Map (List FilenamePackage))
      → Checked true true false c fs
      → Goes (Checked true true true) (resolver_staged env (record c { resolver = r }) r err fs)
  unfolding resolver_staged
  resolver_staged-Goes c r (some err) fs h = tt
  resolver_staged-Goes c r none fs h = by_path (resolver_import_path env r) refl
    where
      by_path :
          (o : Outcome Bytes)
          → resolver_import_path env r ≡ o
          → Goes (Checked true true true) (
              o >>= λ path.
              ok (go (record c { resolver = r }) (append_at path (resolver_file r) fs)))
      by_path (panic m) e = tt
      by_path out_of_fuel e = tt
      by_path (ok path) e = record {
        exec_listed =
            λ x. ListsPackage-append_at c.exec "exec" path (resolver_file r) fs (h.exec_listed x);
        model_listed = λ x d.
            ListsPackage-append_at c.model "model" path (resolver_file r) fs (h.model_listed x d);
        resolver_listed = λ _ _. (path, e, append_at-IsListed path (resolver_file r) fs);
        model_kept = λ e'. cc;
        resolver_kept = λ e'. cc;
        federation_kept = h.federation_kept;
      }

  pub resolver-Goes :
      (c : Config) (fs : Map (List FilenamePackage))
      → Checked true true false c fs
      → Goes (Checked true true true) (check_resolver_section env c fs)
  unfolding check_resolver_section
  resolver-Goes c fs h = elim (Bool-cases (resolver_defined c.resolver)) [
    | inl e ↦ rw e (by_check (check_resolver env c.resolver))
    | inr e ↦
        rw (Goes, e)
          (record {
            exec_listed = h.exec_listed;
            model_listed = h.model_listed;
            resolver_listed =
                λ _ e'. absurd (apart (sym (ap resolver_defined (h.resolver_kept refl)) ∙ e) e');
            model_kept = λ e'. cc;
            resolver_kept = λ e'. cc;
            federation_kept = h.federation_kept;
          })
  ]
    where
      by_check :
          (o : Outcome (ResolverConfig × Option String))
          → Goes
              (Checked true true true)
              (o >>= λ r. resolver_staged env (record c { resolver = r.0 }) r.0 r.1 fs)
      by_check (ok (r, err)) = resolver_staged-Goes c r err fs h
      by_check (panic m) = tt
      by_check out_of_fuel = tt
