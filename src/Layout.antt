-- ===== src/Layout.antt =====
-- layout/repo: whether a repository's directories, gates and declarations agree with its manifest.
pub mod Problems
pub mod Patterns
pub mod Repo
