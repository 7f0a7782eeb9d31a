-- ===== src/Auth/Service.antt =====
-- `AuthService`: one function per method.
mod Session
mod Login
mod Mfa
mod Account
unfoldable pub use Session.*
unfoldable pub use Login.*
unfoldable pub use Mfa.*
unfoldable pub use Account.*
