-- ===== src/Conf.antt =====
-- The configuration file: its grammar, and what its keys mean.
pub mod Text
pub mod Parse
pub mod Words
pub mod Values
pub mod Build
pub mod Tests
