-- ===== src/Repository.antt =====
-- internal/repository: what each repository method asks of gorm. Methods that write return the state
-- of the world; the condition of each query is a Boolean test on rows.
pub mod Task
pub mod Member
pub mod Workspace
pub mod Invitation
pub mod User
pub mod Token
pub mod Verification
pub mod Identity
pub mod Message
