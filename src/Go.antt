-- ===== src/Go.antt =====
-- What the program uses of Go's standard library: decimal numbers, white space, `fmt`, `strconv`,
-- `strings` and maps. It models no file of the repository, only the functions that they call.
pub mod Decimal
pub mod Space
pub mod Format
pub mod Parse
pub mod Split
pub mod Map
pub mod BigInt
