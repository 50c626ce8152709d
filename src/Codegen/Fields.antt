-- ===== src/Codegen/Fields.antt =====
-- codegen/field.go, object.go, directive.go, args.go and complexity.go: what templates read of the data.
-- The text of a Go type is what `LookupType` of the imports gives for it.
pub mod Grouping
mod Tests
use fastgql.Prelude.{
  ℕ, String, Bool, true, false, not, ◌&&◌, ◌||◌, Option, none, some, List, [], ◌∷◌, ◌++◌,
  if◌then◌else◌, str_eq,
}
use fastgql.Prelude.Int.{pos}
use fastgql.Prelude.Text.{Bytes, codes, bytes_eq, quote, has_prefix, itoa}
use fastgql.Prelude.Maps.{Map, find, put}
use fastgql.Templates.{to_go_private, uc_first}

pub record FieldArgument : Type 0 where
  pub name : Bytes
  pub var_name : Bytes
  pub go_type : Bytes
  pub has_value : Bool
  pub has_default : Bool

pub record Directive : Type 0 where
  pub name : Bytes
  pub locations : List String
  pub args : List FieldArgument
  pub builtin : Bool

pub data GoFieldType : Type 0 where
  undefined method variable map : GoFieldType

-- What a field reads of its object, through its link back.
pub record ObjectInfo : Type 0 where
  pub name : Bytes
  pub root : Bool
  pub disable_concurrency : Bool
  pub stream : Bool
  pub is_input : Bool
  pub reference : Bytes

pub record Field : Type 0 where
  pub name : Bytes
  pub go_field_type : GoFieldType
  pub go_receiver_name : Bytes
  pub go_field_name : Bytes
  pub go_type : Bytes
  pub is_resolver : Bool
  pub method_has_context : Bool
  pub args : List FieldArgument
  pub directives : List Directive

pub record Object : Type 0 where
  pub info : ObjectInfo
  pub fields : List Field
  pub implements : List Bytes
  pub directives : List Directive

-- `strings.Join(args, ", ")`.
unfoldable pub comma_separated : List Bytes → Bytes
comma_separated [] = []
comma_separated (a ∷ []) = a
comma_separated (a ∷ b ∷ as') = a ++ codes ", " ++ comma_separated (b ∷ as')

abbrev one_of : String → List String → Bool
one_of l [] = false
one_of l (a ∷ location) = str_eq l a || one_of l location

unfoldable pub is_location : List String → List String → Bool
is_location [] location = false
is_location (l ∷ locations) location = one_of l location || is_location locations location

unfoldable pub implemented : List String → List Directive → List Directive
unfolding is_location
implemented location [] = []
implemented location (d ∷ ds) =
    let rest = implemented location ds in
    if not d.builtin && is_location d.locations location then d ∷ rest else rest

-- `Field.ImplDirectives` and `Field.HasDirectives`.
unfoldable pub impl_directives : ObjectInfo → Field → List Directive
unfolding implemented
impl_directives o f =
    implemented
      ((if o.is_input then "INPUT_FIELD_DEFINITION" else "FIELD_DEFINITION") ∷ "OBJECT" ∷ [])
      f.directives

abbrev is_nonempty {ℓ} : {A : Type ℓ} → List A → Bool
is_nonempty [] = false
is_nonempty (a ∷ as') = true

unfoldable pub has_directives : ObjectInfo → Field → Bool
unfolding impl_directives
has_directives o f = is_nonempty (impl_directives o f)

unfoldable pub directive_obj_name : ObjectInfo → Field → Bytes
directive_obj_name o f = if o.root then codes "nil" else f.go_receiver_name

-- `Field.IsConcurrent`.
unfoldable pub is_concurrent : ObjectInfo → Field → Bool
is_concurrent o f = if o.disable_concurrency then false else f.method_has_context || f.is_resolver

unfoldable pub is_reserved : Bytes → Bool
is_reserved name = has_prefix name (codes "__")

unfoldable pub go_name_unexported : Field → Bytes
go_name_unexported f = to_go_private f.name

-- The argument as it is taken out of the map of arguments.
unfoldable pub asserted : FieldArgument → Bytes
asserted arg = codes "args[" ++ quote arg.name ++ codes "].(" ++ arg.go_type ++ codes ")"

unfoldable pub all_asserted : List FieldArgument → List Bytes
unfolding asserted
all_asserted [] = []
all_asserted (arg ∷ args) = asserted arg ∷ all_asserted args

unfoldable pub complexity_args : Field → Bytes
unfolding comma_separated all_asserted
complexity_args f = comma_separated (all_asserted f.args)

unfoldable pub call_args : ObjectInfo → Field → Bytes
unfolding comma_separated all_asserted
call_args o f = comma_separated (
    (if f.is_resolver
      then (codes "rctx" ∷ (if o.root then [] else codes "obj" ∷ []))
      else if f.method_has_context
      then codes "ctx" ∷ []
      else [])
    ++ all_asserted f.args)

unfoldable pub short_invocation : ObjectInfo → Field → Bytes
unfolding call_args
short_invocation o f =
    o.name ++ codes "()." ++ f.go_field_name ++ codes "(" ++ call_args o f ++ codes ")"

unfoldable pub resolver_type : ObjectInfo → Field → Bytes
unfolding short_invocation
resolver_type o f = if f.is_resolver then short_invocation o f else []

unfoldable pub args_func : ObjectInfo → Field → Bytes
args_func o f =
    if is_nonempty f.args
    then codes "field_" ++ o.name ++ codes "_" ++ f.name ++ codes "_args"
    else []

unfoldable pub declared_args : List FieldArgument → Bytes
declared_args [] = []
declared_args (arg ∷ args) =
    codes ", " ++ arg.var_name ++ codes " " ++ arg.go_type ++ declared_args args

unfoldable pub short_resolver_declaration : ObjectInfo → Field → Bytes
unfolding declared_args
short_resolver_declaration o f =
    codes "(ctx context.Context"
    ++ (if o.root then [] else codes ", obj " ++ o.reference)
    ++ declared_args f.args
    ++ codes ") ("
    ++ (if o.stream then codes "<-chan " ++ f.go_type else f.go_type)
    ++ codes ", error)"

unfoldable pub complexity_signature : Field → Bytes
unfolding declared_args
complexity_signature f = codes "func(childComplexity int" ++ declared_args f.args ++ codes ") int"

-- Methods of `Object`.
unfoldable pub quoted_names : List Bytes → Bytes
quoted_names [] = []
quoted_names (name ∷ names) = codes ", " ++ quote name ++ quoted_names names

unfoldable pub implementors : Object → Bytes
unfolding quoted_names
implementors o = codes "[]string{" ++ quote o.info.name ++ quoted_names o.implements ++ codes "}"

unfoldable pub any_field : (Field → Bool) → List Field → Bool
any_field test [] = false
any_field test (f ∷ fs) = test f || any_field test fs

unfoldable pub has_resolvers : Object → Bool
unfolding any_field
has_resolvers o = any_field (λ f. f.is_resolver) o.fields

unfoldable pub object_has_directives : Object → Bool
unfolding any_field has_directives
object_has_directives o = is_nonempty o.directives || any_field (has_directives o.info) o.fields

unfoldable pub object_is_concurrent : Object → Bool
unfolding any_field is_concurrent
object_is_concurrent o = any_field (is_concurrent o.info) o.fields

abbrev pub group_or {ℓ} : {A : Type ℓ} → Option (List A) → List A
group_or none = []
group_or (some fs) = fs

-- `UniqueFields`.
unfoldable pub group_fields : List Field → Map (List Field) → Map (List Field)
unfolding find put
group_fields [] m = m
group_fields (f ∷ fs) m =
    group_fields fs (put f.go_field_name (group_or (find f.go_field_name m) ++ f ∷ []) m)

unfoldable pub unique_fields : List Field → Map (List Field)
unfolding group_fields
unique_fields fs = group_fields fs []

-- `Data.Args`, over the objects and then the directives.
unfoldable pub directive_args_func : Directive → Bytes
directive_args_func d = if is_nonempty d.args then codes "dir_" ++ d.name ++ codes "_args" else []

unfoldable pub args_of_fields :
    ObjectInfo → List Field → Map (List FieldArgument) → Map (List FieldArgument)
unfolding args_func put
args_of_fields o [] m = m
args_of_fields o (f ∷ fs) m =
    args_of_fields o fs (if is_nonempty f.args then put (args_func o f) f.args m else m)

unfoldable pub args_of_objects : List Object → Map (List FieldArgument) → Map (List FieldArgument)
unfolding args_of_fields
args_of_objects [] m = m
args_of_objects (o ∷ os) m = args_of_objects os (args_of_fields o.info o.fields m)

unfoldable pub args_of_directives :
    List Directive → Map (List FieldArgument) → Map (List FieldArgument)
unfolding directive_args_func put
args_of_directives [] m = m
args_of_directives (d ∷ ds) m =
    args_of_directives ds (if is_nonempty d.args then put (directive_args_func d) d.args m else m)

unfoldable pub data_args : List Object → List Directive → Map (List FieldArgument)
unfolding args_of_objects args_of_directives
data_args os ds = args_of_directives ds (args_of_objects os [])

-- Methods of `Directive`.
unfoldable pub directive_call_args : Directive → Bytes
unfolding comma_separated all_asserted
directive_call_args d =
    comma_separated (codes "ctx" ∷ codes "obj" ∷ codes "n" ∷ all_asserted d.args)

unfoldable pub resolved_args : List FieldArgument → List Bytes
resolved_args [] = []
resolved_args (arg ∷ args) =
    (if arg.has_value || arg.has_default then arg.var_name else codes "nil") ∷ resolved_args args

unfoldable pub resolve_args : Directive → Bytes → ℕ → Bytes
unfolding comma_separated resolved_args
resolve_args d obj next =
    comma_separated
      (codes "ctx" ∷ obj ∷ (codes "directive" ++ itoa (pos next)) ∷ resolved_args d.args)

unfoldable pub declared_private : List FieldArgument → Bytes
declared_private [] = []
declared_private (arg ∷ args) =
    codes ", " ++ to_go_private arg.name ++ codes " " ++ arg.go_type ++ declared_private args

-- `ucFirst` of ASCII.
unfoldable pub declaration : Directive → Bytes
unfolding declared_private
declaration d =
    uc_first d.name
    ++ codes " func(ctx context.Context, obj interface{}, next graphql.Resolver"
    ++ declared_private d.args
    ++ codes ") (res interface{}, err error)"
