-- ===== src/Auth.antt =====
-- Sign-in: the tokens of src/auth/jwt.rs and the handlers of src/server/handlers/auth.rs. A wall-clock
-- reading is in seconds since the epoch; what the handlers draw at random is an argument.
pub mod Jwt
pub mod State
pub mod Login
pub mod Refresh
pub mod ActiveCache
pub mod Device
pub mod OidcState
