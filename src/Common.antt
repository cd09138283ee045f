-- ===== src/Common.antt =====
-- What the modules share: names of the libraries passed on, Boolean tests on numbers, lists measured
-- by native numbers, dictionaries in insertion order, a stable sort, decimal numerals, exceptions.
pub mod Tests
pub mod Lists
pub mod Dict
pub mod Sort
pub mod Digits
pub mod Exec
pub mod Action
pub mod Keyed
pub mod Int
