-- ===== src/Generator.antt =====
-- generator/trees/domain/tree.py
pub mod Scope
pub mod Tags
pub mod Template
pub mod Tree
