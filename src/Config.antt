-- ===== src/Config.antt =====
-- framework/config: from directives to values. `Node` is a directive, `Process` the matching of a block
-- against the entries of a `config.Map`, `Number` and `Size` the texts of numbers, `Mappers` the
-- functions that register entries.
pub mod Node
pub mod Process
pub mod Number
pub mod Size
pub mod Mappers
