-- ===== src/Python.antt =====
-- The Python that the program relies on: its dynamic values (YAML, JSON and config contexts) and
-- the results of code that raises.
pub mod Assoc
pub mod Dict
pub mod Value
pub mod Result
pub mod Pattern
pub mod Unique
pub mod Run
