-- ===== src/Codegen.antt =====
-- Package codegen (codegen/): how fields of the schema are bound to Go.
pub mod Arguments
pub mod Builder
pub mod Directives
pub mod Binding
pub mod Building
pub mod Fields
pub mod Interfaces
pub mod Objects
pub mod Data
