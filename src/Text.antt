-- ===== src/Text.antt =====
-- Python's `str` as the list of its code points, and the methods and functions of it that
-- gdbstub.py calls.
mod Lists
mod Number
mod Hex
mod Words
mod Encoding
unfoldable pub use Lists.*
unfoldable pub use Number.*
unfoldable pub use Hex.*
unfoldable pub use Words.*
unfoldable pub use Encoding.*
