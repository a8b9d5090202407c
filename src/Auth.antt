-- ===== src/Auth.antt =====
-- Sign-in and account recovery: backend/src/auth and backend/src/recovery, with the parts of
-- backend/src/users and backend/src/system-settings that they stand on.
pub mod Records
pub mod Runtime
pub mod Totp
pub mod Settings
pub mod Limits
pub mod Users
pub mod Parts
pub mod Login
pub mod SecondFactor
pub mod Impersonate
pub mod Tokens
pub mod Recover
pub mod Service
pub mod Stable
pub mod Orderly
pub mod Spent
pub mod Reset
pub mod Entry
pub mod Sound
pub mod Approval
pub mod Renewal
pub mod Rates
pub mod Base32
