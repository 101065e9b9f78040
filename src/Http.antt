-- ===== src/Http.antt =====
-- yuan/http: methods and status codes, header maps, requests and responses, and the servlets that
-- answer them.
pub mod Cstring
pub mod Method
pub mod Headers
pub mod Servlet
pub mod Server
pub mod Receive
pub mod Pool
pub mod Request
pub mod Dump
mod Tests
