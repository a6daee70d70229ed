-- ===== src/Command.antt =====
-- The two programs of the repository, as functions of their arguments and of the files.
pub mod Text
pub mod Elfrc
pub mod Elfresdump
