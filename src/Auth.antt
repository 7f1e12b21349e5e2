-- ===== src/Auth.antt =====
-- internal/service/auth/auth.go: the service over its ports, one child for each group of handlers.
pub mod Monad
pub mod Helpers
pub mod Rules
pub mod Quiet
pub mod Account
pub mod Login
pub mod Refresh
pub mod Logout
pub mod Listing
pub mod Reset
pub mod Service
pub mod Within
pub mod Revocation
pub mod Endings
pub mod Rotation
pub mod Admission
pub mod Passwords
pub mod Codes
pub mod Fixture
pub mod Answers
pub mod Outcomes
pub mod Requests
pub mod Tests
pub mod PasswordTests
pub mod OutcomeTests
