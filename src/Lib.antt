-- ===== src/Lib.antt =====
-- fastgql, a GraphQL server over fasthttp: a library of models of its parts, with their theorems.
--
-- A request comes in through a transport (graphql/handler/transport), which the server
-- (graphql/handler/server.go) picks and gives to the executor (graphql/executor). The executor asks its
-- extensions (graphql/handler/extension), parses and validates the query or takes it from its cache, and
-- runs the operation; generated code collects the fields (graphql/executable_schema.go), resolves them
-- concurrently (graphql/fieldset.go) and writes JSON (graphql/string.go, graphql/jsonw.go and the
-- scalars), while errors are kept in a response context. Introspection (graphql/introspection) reads the
-- schema for clients. The code generator (codegen) checks its configuration, fills the type map, finds for
-- each GraphQL type and field the Go type, method or field to bind to among the packages that
-- internal/code loads, and writes Go with names and imports of its own; the federation plugin
-- (plugin/federation) adds the entities of a federated schema.
--
-- The files:
--   Prelude and its children: shared names; Boolean tests and lists over the native numbers, signed
--     integers with the bounds of a Go int (64 bits), results of code that can panic, text, Go maps as
--     association lists, sorting by bytes.
--   Ast: what the code reads of the syntax trees of gqlparser.
--   Complexity: complexity/complexity.go, the walker and its saturating sum.
--   Graphql/CollectFields: `CollectFields` of graphql/executable_schema.go.
--   Graphql/Paths: `FieldContext.Path`, `PathContext.Path` and `equalPath`.
--   Graphql/Errors: graphql/errcode. Graphql/Responses: graphql/context_response.go.
--   Graphql/FieldSets: graphql/fieldset.go. Graphql/Quoting: graphql/string.go, graphql/jsonw.go.
--   Graphql/Scalars: graphql/int.go, id.go, bool.go.
--   Executor: `processExtensions` and `Use`; Executor/Parsing: `parseQuery`; Executor/Creation:
--     `CreateOperationContext`; Executor/Dispatch: `DispatchOperation` and `DispatchError`.
--   Extension: `AutomaticPersistedQuery`, `ComplexityLimit` and `MapCache`.
--   Transport: `Supports` and `Do` of GET, POST, MultipartForm and Options, `getTransport`, and `Handler`
--     with its recover;
--     Transport/Form: the loop of MultipartForm over its files; Transport/Upload: `AddUpload`;
--     Transport/Websocket: `wsConnection` as a state machine; Transport/InitPayload: its payload.
--   Graphql/Introspection: graphql/introspection; Graphql/Introspection/Listing: the lists it gives.
--   Code: `CompatibleTypes` and `NormalizeVendor`; Code/Packages: internal/code/packages.go; Code/Dirs:
--     internal/code/imports.go and `PkgAndType`.
--   Templates: `ToGo`, `ToGoPrivate`, `wordWalker`; Templates/Imports: codegen/templates/import.go.
--   Config: `TypeMap`, `PackageConfig` and `ResolverConfig` of codegen/config; Config/Checking:
--     `Config.check`; Config/Builtins and Config/Injection: `injectBuiltins` and `injectTypesFromSchema`;
--     Config/Searching: `findCfg`; Config/Binder and its child Lookup: codegen/config/binder.go,
--     `TypeIdentifier` and codegen/type.go.
--   Codegen/Binding: `findBindTarget`; Codegen/Arguments: `bindArgs`; Codegen/Building: `bindField` and the
--     end of `buildField`; Codegen/Builder: the steps of the builder, which change the binder and can
--     fail; Codegen/Directives: `buildDirectives` and `getDirectives`; Codegen/Interfaces:
--     `buildInterface`; Codegen/Objects: `buildObject`, `buildField` and `buildArg`; Codegen/Data:
--     `BuildData`, which runs them all; Codegen/Fields: the methods of `Field`, `Object` and `Directive`
--     that templates call, `Data.Args` and `UniqueFields`.
--   Plugin/Federation and its children: plugin/federation/federation.go.
-- A field of a record is the Go field of that name, and a function the Go function of that name in snake
-- case; a helper by clauses is a part of the function that calls it. Children prove what they are named
-- for, and the modules Tests run the definitions and apply the theorems.
--
-- Go values are values here: what the code changes in place is passed on and returned. A panic is a result
-- of its own. Methods under a mutex are single steps, goroutines take turns in any order, and the
-- iteration order of a map is never relied on. `CollectFields` recurs on fuel: a theorem shows that the
-- fuel it starts with is enough, circular fragments included. `wordWalker` recurs on fuel as long as the
-- name, and loses no rune, so it never runs out. `Evict` has one round more than there are packages in the
-- cache, which is enough since each round takes one out. `Lookup` of imports tries ten numbers, as the
-- code does. `findBindTarget` needs one round more than the depth of embedding, and `TypeReference` two,
-- as it asks for nothing but String again; both can recur without end. The modules named Ends are about
-- what this fuel is enough for, and end with `BuildData`. `Program` of Codegen/Objects holds both amounts
-- of fuel. Strings that are taken apart are lists of bytes; names and paths are ASCII.
--
-- Parameters, with no definition here: gqlparser (parsing, validation, look-ups in a schema, coercion of
-- variables), encoding/json where it decodes, crypto/sha256, fasthttp and its websocket, go/types and
-- packages.Load (the declarations of Go packages), the file system and path/filepath, the resolvers and
-- the error presenter.
--
-- Not modelled: statistics and tracing, which only measure; the rendering of templates and the pruning of
-- imports, which walk Go syntax trees; reading YAML and file patterns; positions in Go files; the other
-- plugins, which render templates; the scalars that wrap package time or encoding/json; commands, clients,
-- examples and generated code.
pub mod Prelude
pub mod Ast
pub mod Complexity
pub mod Graphql
pub mod Executor
pub mod Extension
pub mod Transport
pub mod Code
pub mod Templates
pub mod Config
pub mod Plugin
pub mod Codegen
