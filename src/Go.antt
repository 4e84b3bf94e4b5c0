-- ===== src/Go.antt =====
-- What the program uses of Go's standard library.
pub mod Strconv
pub mod Strings
pub mod Filepath
pub mod Map
pub mod Utf8
