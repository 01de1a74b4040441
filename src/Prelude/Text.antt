-- ===== src/Prelude/Text.antt =====
-- Go strings as lists of code points, with the functions of Go's package strings that the program
-- calls. Every text is taken to be valid UTF-8, for which the order of code points is the order of
-- bytes, and a slice that starts or ends beside an ASCII character is the same in both views.
mod Equality
mod Search
mod Split
mod Slice
unfoldable pub use Equality.*
unfoldable pub use Search.*
pub use Split.*
unfoldable pub use Slice.*
