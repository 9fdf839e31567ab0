-- ===== src/Tests.antt =====
-- Runs of the definitions, and each theorem at an input.
mod States
mod Slots
mod Servers
mod Queues
mod Windows
mod Values
mod Loop
mod Work
mod Guards
mod Files
mod Sessions
mod Turns
mod Pursuits
mod Runs
