-- ===== src/Python.antt =====
-- What the code uses of Python's language and standard library.
pub mod Str
pub mod Pattern
pub mod Number
pub mod Result
pub mod Float
