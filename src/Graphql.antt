-- ===== src/Graphql.antt =====
-- Package graphql (graphql/): the types and helpers of the execution of a request.
pub mod CollectFields
pub mod Paths
pub mod Errors
pub mod Responses
pub mod FieldSets
pub mod Quoting
pub mod Scalars
pub mod Introspection
mod Tests
