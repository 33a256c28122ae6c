-- ===== src/HookCli.antt =====
-- tessercheck-cli/tessercheck_cli/hook.py: the command that an editor runs after a tool wrote a file. Files,
-- clocks and processes are its surroundings: their results are arguments.
pub mod Format
pub mod Write
pub mod Sessions
pub mod Ancestors
pub mod Events
