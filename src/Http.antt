-- ===== src/Http.antt =====
-- netb/HttpMessage.hpp and netb/HttpMessage.cpp: HTTP messages, their headers, and the incremental
-- parser. Strings are lists of byte values.
pub mod Headers
pub mod Number
pub mod Request
pub mod Response
