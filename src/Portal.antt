-- ===== src/Portal.antt =====
-- portal_auth.py: the human users of the portal, their passwords, and the sessions signed for them.
pub mod Identity
pub mod Store
pub mod Rows
pub mod NewUser
pub mod Users
pub mod Digest
pub mod Login
pub mod Session
pub mod Secret
pub mod Payload
pub mod Token
pub mod Tests
