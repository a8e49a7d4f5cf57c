-- ===== src/SharedFolders.antt =====
-- Shared folders: packages/shared-folders/src/index.ts. `Types` is its data, `Keys` the keys of its
-- maps, `Store` the private methods of `InMemorySharedFolderCore`, and `Folders`, `Invitations`,
-- `Members`, `Resources` and `Tasks` its public ones.
pub mod Types
pub mod Keys
pub mod Store
pub mod Folders
pub mod Invitations
pub mod Members
pub mod Resources
pub mod Tasks
pub mod Run
pub mod Owners
pub mod Acceptance
pub mod Settlements
pub mod Reservations
pub mod Examples
pub mod Cache
