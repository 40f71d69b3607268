-- ===== src/Tests.antt =====
-- The theorems of the library, applied at concrete inputs.
mod Ids
mod Web
mod Nodes
mod Stubs
mod Calls
mod Rings
mod Served
mod Pages
mod Hosts
