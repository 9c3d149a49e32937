-- ===== src/Tests.antt =====
-- Runs at concrete inputs, and the theorems at concrete inputs.
mod Backend
mod Wire
mod Calls
mod Disk
mod Connection
mod Fuse
mod Linked
mod Stream
mod Clients
mod Served
mod Confined
