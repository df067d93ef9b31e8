-- ===== src/Tests.antt =====
-- Concrete runs: the theorems at inputs where their hypotheses hold.
mod World
mod Run
mod Laws
mod Task
mod Invitation
mod Session
mod Rooms
mod Workspace
mod Account
mod Invite
mod Edge
mod Jwt
mod Web
mod Socket
