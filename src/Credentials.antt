-- ===== src/Credentials.antt =====
-- credentials.py
pub mod Digits
pub mod Base58
pub mod Keys
pub mod Passport
pub mod Verify
pub mod Tests
