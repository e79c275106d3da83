-- ===== src/Examples.antt =====
-- Runs of the code on concrete input, and the theorems at concrete input.
mod Script
mod Framing
mod Session
mod Sample
mod Credentials
mod Commands
mod Info
mod Machines
mod Replies
mod Tokens
mod Wire
mod Peer
mod Queries
mod Login
