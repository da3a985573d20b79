-- ===== src/Witness.antt =====
-- The theorems applied at concrete inputs, by the part of the program that they are about.
pub mod Findings
pub mod Versions
pub mod Vulnerabilities
pub mod Language
pub mod Concurrency
pub mod Ranges
pub mod Network
pub mod Plugins
pub mod Web
