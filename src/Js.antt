-- ===== src/Js.antt =====
-- The values of JavaScript that come out of `JSON.parse`, and the measures of texts that src/ takes.
pub mod Texts
pub mod Values
