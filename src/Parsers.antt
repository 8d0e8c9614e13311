-- ===== src/Parsers.antt =====
-- The parsers of socks5d/lib/parsers/socks5 and socks5d/lib/parsers/pop3.
pub mod Hello
pub mod Auth
pub mod Request
pub mod Pop3
mod Tests
