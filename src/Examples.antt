-- ===== src/Examples.antt =====
-- A concrete stand-in for proto1, and runs of the theorems on concrete inputs.
pub mod Toy
mod Where
mod Accepted
mod Nodes
mod Client
mod Scan
mod Frames
mod Parsing
mod Wire
mod Terminal
mod Joined
mod Served
