-- ===== src/Account.antt =====
-- internal/account: users, their devices and refresh tokens, the merge of a guest into a registered
-- account, and the deletion of an account's data.
pub mod Types
pub mod Store
pub mod Password
pub mod Service
pub mod Sessions
pub mod Merge
pub mod SignIn
pub mod Privacy
