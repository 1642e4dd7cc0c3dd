-- ===== src/Scripts.antt =====
-- scripts: the developer's tools. Texts are lists of code points, and white space is that of ASCII.
pub mod Text
pub mod Kept
pub mod Doctor
pub mod Engram
