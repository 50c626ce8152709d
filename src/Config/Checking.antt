-- ===== src/Config/Checking.antt =====
-- `ResolverConfig.Check` of codegen/config/resolver.go and `Config.check` of codegen/config/config.go.
use fastgql.Prelude.{
  String, Bool, true, not, ◌&&◌, Option, none, some, List, [], ◌∷◌, ◌++◌, if◌then◌else◌,
}
use fastgql.Prelude.Outcome.{Outcome, ok, ◌>>=◌}
use fastgql.Prelude.Text.{Bytes, codes, bytes_eq}
use fastgql.Prelude.Maps.{Map, find, put}
use fastgql.Config.{
  TypeMap, type_map_valid, Env, PackageConfig, Layout, unset, single_file, follow_schema,
  ResolverConfig, is_empty, contains_separator, is_go_file, is_defined, import_path, check_package,
  resolver_dir, resolver_import_path, resolver_defined,
}

-- What `check` reads of a `Config`. A nil map of models is empty.
pub record Config : Type 0 where
  pub exec : PackageConfig
  pub model : PackageConfig
  pub resolver : ResolverConfig
  pub federation : PackageConfig
  pub models : TypeMap
  pub federated : Bool

pub record FilenamePackage : Type 0 where
  pub filename : Bytes
  pub package_name : Bytes
  pub declaree : String

abbrev pub list_or {ℓ} : {A : Type ℓ} → Option (List A) → List A
list_or none = []
list_or (some l) = l

-- `fileList[path] = append(fileList[path], file)`.
unfoldable pub append_at :
    Bytes → FilenamePackage → Map (List FilenamePackage) → Map (List FilenamePackage)
unfolding find put
append_at path file fs = put path (list_or (find path fs) ++ file ∷ []) fs

unfoldable pub one_package : FilenamePackage → List FilenamePackage → Bool
one_package file1 [] = true
one_package file1 (file2 ∷ files) =
    bytes_eq file1.package_name file2.package_name && one_package file1 files

unfoldable pub each_package : List FilenamePackage → List FilenamePackage → Bool
unfolding one_package
each_package [] pkg = true
each_package (file1 ∷ files) pkg = one_package file1 pkg && each_package files pkg

-- The loops at the end of `check`: whether no error is returned.
unfoldable pub consistent : Map (List FilenamePackage) → Bool
unfolding each_package
consistent [] = true
consistent ((path, pkg) ∷ fs) = each_package pkg pkg && consistent fs

-- A section is in order, with the files so far, or the error is returned.
pub data Stage : Type 0 where
  go : Config → Map (List FilenamePackage) → Stage
  stop : Config → String → Stage

infixl 5 ◌>>◌
abbrev pub ◌>>◌ :
    Outcome Stage → (Config → Map (List FilenamePackage) → Outcome Stage) → Outcome Stage
stage >> next = stage >>= λ s. elim s [ go c fs ↦ next c fs | stop c err ↦ ok (stop c err) ]

abbrev pub file_of : PackageConfig → String → FilenamePackage
file_of c declaree = record {
  filename = c.filename;
  package_name = c.package_name;
  declaree = declaree;
}

module _ (env : Env) where
  open env use {abs, join, name_for_dir}

  -- Layout and Type get their defaults.
  unfoldable pub defaults : ResolverConfig → ResolverConfig
  defaults r = record r {
    layout = elim r.layout [ unset ↦ single_file | layout ↦ layout ];
    type_name = if is_empty r.type_name then codes "Resolver" else r.type_name;
  }

  unfoldable pub resolver_package : ResolverConfig → Outcome (ResolverConfig × Option String)
  unfolding resolver_dir
  resolver_package r =
      if contains_separator r.package_name
      then ok (r, some "package should be the output package name only")
      else (resolver_dir env r >>= λ dir. ok (
        if is_empty r.package_name && not (is_empty dir)
            then record r { package_name = name_for_dir dir }
            else r,
        none,
      ))

  unfoldable pub check_layout : Layout → ResolverConfig → Outcome (ResolverConfig × Option String)
  unfolding resolver_package
  check_layout single_file r =
      if is_empty r.filename
      then ok (r, some "filename must be specified with layout=single-file")
      else if is_go_file r.filename
      then resolver_package (record r { filename = abs r.filename })
      else ok (r, some "filename should be path to a go source file with layout=single-file")
  check_layout follow_schema r =
      if is_empty r.dir_name
      then ok (r, some "dirname must be specified with layout=follow-schema")
      else resolver_package (record r {
        dir_name = abs r.dir_name;
        filename =
            if is_empty r.filename
            then join (abs r.dir_name) (codes "resolver.go")
            else abs r.filename;
      })
  check_layout layout r = ok (r, some "invalid layout")

  unfoldable pub check_resolver : ResolverConfig → Outcome (ResolverConfig × Option String)
  unfolding defaults check_layout
  check_resolver r = check_layout (defaults r).layout (defaults r)

  unfoldable pub staged :
      Config → String → PackageConfig → Option String → Map (List FilenamePackage) → Outcome Stage
  unfolding append_at import_path
  staged c section p none fs = ok (go c (append_at (import_path env p) (file_of p section) fs))
  staged c section p (some err) fs = ok (stop c err)

  unfoldable pub check_exec : Config → Map (List FilenamePackage) → Outcome Stage
  unfolding staged check_package
  check_exec c fs =
      let (exec, err) = check_package env c.exec in
      staged (record c { exec = exec }) "exec" exec err fs

  unfoldable pub check_model : Config → Map (List FilenamePackage) → Outcome Stage
  unfolding staged check_package is_defined
  check_model c fs =
      let (model, err) = check_package env c.model in
      if is_defined c.model
      then staged (record c { model = model }) "model" model err fs
      else ok (go c fs)

  unfoldable pub resolver_staged :
      Config → ResolverConfig → Option String → Map (List FilenamePackage) → Outcome Stage
  unfolding append_at resolver_import_path
  resolver_staged c r (some err) fs = ok (stop c err)
  resolver_staged c r none fs = resolver_import_path env r >>= λ path. ok (
      go c (
        append_at path
          (record { filename = r.filename; package_name = r.package_name; declaree = "resolver" })
          fs))

  unfoldable pub check_resolver_section : Config → Map (List FilenamePackage) → Outcome Stage
  unfolding resolver_staged check_resolver resolver_defined
  check_resolver_section c fs =
      if resolver_defined c.resolver
      then (check_resolver c.resolver >>= λ r.
          resolver_staged (record c { resolver = r.0 }) r.0 r.1 fs)
      else ok (go c fs)

  -- Federation is in the package of exec.
  unfoldable pub beside_exec : Config → Map (List FilenamePackage) → Outcome Stage
  unfolding import_path
  beside_exec c fs =
      if bytes_eq (import_path env c.federation) (import_path env c.exec)
      then ok (go c fs)
      else ok (stop c "federation and exec must be in the same package")

  unfoldable pub check_federation : Config → Map (List FilenamePackage) → Outcome Stage
  unfolding staged check_package is_defined beside_exec
  check_federation c fs =
      let (federation, err) = check_package env c.federation in
      if is_defined c.federation
      then (staged (record c { federation = federation }) "federation" federation err fs
          >> beside_exec)
      else ok (go c fs)

  unfoldable pub check_rest : Config → Map (List FilenamePackage) → Outcome Stage
  unfolding consistent
  check_rest c fs =
      if c.federated
      then ok (stop c "federated has been removed")
      else if consistent fs
      then ok (go c fs)
      else ok (stop c "the same import path with different package names")

  -- `check`: the configuration as it is afterwards, with the files or the error.
  unfoldable pub check : Config → Outcome Stage
  unfolding type_map_valid check_exec check_model check_resolver_section check_federation check_rest
  check c =
      if type_map_valid c.models
      then (check_exec c []
          >> check_model
          >> check_resolver_section
          >> check_federation
          >> check_rest)
      else ok (stop c "config.models: invalid type specifier")
