-- ===== src/Tests.antt =====
-- Runs of the theorems at concrete inputs.
mod Analyzer
mod HookRuns
mod Declared
mod Repository
mod Rewriting
mod Resolving
mod Signed
mod Generated
mod Sessions
mod Events
