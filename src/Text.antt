-- ===== src/Text.antt =====
-- C strings: the bytes before the terminating zero, and the libc calls on them that the shell
-- makes (snprintf, strcat, strncmp, strtok, fgets, atoi), as the C library documents them. No
-- modelled text holds a zero byte.
mod Chars
pub mod Cat
pub mod Lines
pub mod Token
pub mod Prompt
pub mod Words
unfoldable pub use Chars.*
