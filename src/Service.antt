-- ===== src/Service.antt =====
-- internal/service: the methods of each service, as actions on the outside world.
pub mod Libs
pub mod Task
pub mod Workspace
pub mod Invitation
pub mod User
pub mod Auth
pub mod Email
