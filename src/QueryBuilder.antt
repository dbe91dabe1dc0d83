-- ===== src/QueryBuilder.antt =====
-- src/query_builder.c: SQL text from a schema and a condition. `Buf` is the string buffer,
-- `Emit` the steps that append to it, `Columns`, `Where` and `Build` the builders, and `Render`
-- the text that the builders are meant to produce.
pub mod Buf
pub mod Emit
pub mod Columns
pub mod Where
pub mod Render
pub mod Statement
pub mod Build
mod Tests
