-- ===== src/Examples.antt =====
-- A small world of libraries: a VM whose programs are tool names.
pub mod World
pub mod Runs
pub mod Parts
pub mod Requests
mod Files
pub mod Servers
pub mod Clients
mod Histories
mod Commands
mod Served
