-- ===== src/Auth.antt =====
-- prototype/web-ui/app/auth: roles, permissions and the bindings that give them.
pub mod Policy
pub mod Bindings
