-- ===== src/Sql/Validator.antt =====
-- The AST validator: src/text_to_sql/sql/validator.py. `Findings` holds the outcome and its `add`,
-- `Comments` the textual backstop, `Functions`, `Tables` and `Columns` the checks of the parts of a
-- statement, and `Statement` the entry points.
pub mod Findings
pub mod Comments
pub mod Config
pub mod Functions
pub mod Tables
pub mod Columns
pub mod Statement
