-- ===== src/Tests.antt =====
-- Runs of the operations at concrete inputs.
mod Learning
mod Members
mod Naming
mod Frames
mod Office
mod Ticking
mod Tree
mod Custody
mod Waiting
mod Bridging
