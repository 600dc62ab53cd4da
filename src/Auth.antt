-- ===== src/Auth.antt =====
-- backend/auth.py: users, roles, sessions and the decorators that guard the routes, with the
-- check that runs before each request (backend/lto_backend_main.py) and the login route
-- (backend/routes/auth.py).
mod Tests
pub mod Permissions
pub mod Database
pub mod Accounts
pub mod Sessions
pub mod Requests
pub mod BeforeRequest
pub mod Roles
pub mod Expiry
pub mod Revocation
pub mod TwoFactor
pub mod Login
pub mod GroupRoles
pub mod LoginRoute
pub mod WellFormed
