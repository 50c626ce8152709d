-- ===== src/Plugin.antt =====
-- Packages under plugin/: what plugins add to the configuration, the schema and the generated code.
pub mod Federation
