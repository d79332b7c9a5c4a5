-- ===== src/Json.antt =====
-- The JSON codec of mcp/json.c: values, texts, the parser and the writer. Memory lasts.
pub mod Text
pub mod Value
pub mod Parse
pub mod Write
pub mod Numbers
pub mod Writable
pub mod RoundTrip
