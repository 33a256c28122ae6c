-- ===== src/Service.antt =====
-- tessercheck-py/tessercheck/application/service.py
pub mod CheckWrite
pub mod Rewrites
