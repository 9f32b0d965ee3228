-- ===== src/Examples.antt =====
-- Concrete runs: a library and a backend that answer, and the theorems at inputs that exercise the
-- code.
mod World
mod Runs
mod AuthorWorld
mod Author
mod Goals
mod Parts
