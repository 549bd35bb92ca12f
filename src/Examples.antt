-- ===== src/Examples.antt =====
-- Concrete inputs: tests of the definitions, and the theorems applied to runs of the program.
mod Data
mod Connect
mod Export
mod Physics
mod CalledBack
mod Loading
mod Wire
mod Transport
mod Registry
mod Calls
mod Process
mod Session
mod Blocked
mod Drawn
mod Shared
mod Listener
mod Locks
