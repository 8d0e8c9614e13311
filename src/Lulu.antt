-- ===== src/Lulu.antt =====
-- The management protocol (socks5d/lib/lulu, socks5d/lib/parsers/lulu): commands in text, of
-- words between pipes, that end with CR LF.
pub mod Words
pub mod Commands
pub mod Goodbye
pub mod Values
pub mod Text
pub mod Hello
pub mod SetUser
pub mod DelUser
pub mod Messages
pub mod Connection
pub mod Transaction
pub mod Login
pub mod Accepted
mod Tests
