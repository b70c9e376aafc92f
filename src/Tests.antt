-- ===== src/Tests.antt =====
-- Runs of the editor on concrete sessions, and the theorems at concrete inputs.
mod Sessions
mod Editing
mod Commands
mod Texts
mod Ciphers
mod Input
mod Screen
mod Redoing
mod Keys
mod Loop
mod Rooms
mod Clients
mod Packs
mod Buffers
