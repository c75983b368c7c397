-- ===== src/Tests.antt =====
-- The theorems at concrete inputs.
mod Fields
mod Registries
mod Commands
mod Population
mod Dumps
mod Structure
mod Sessions
mod Sets
