-- ===== src/Tests.antt =====
-- Concrete monitors and arrays: runs of the operations, and the theorems applied to them.
mod Doubles
mod Arrays
mod Monitors
mod Locks
mod Reductions
mod Threads
mod Children
mod Counters
mod Rounds
mod Walks
mod Plugins
mod Registry
mod ProcEvents
mod Sums
mod Places
mod PapiCounts
mod Command
mod Timers
mod Traces
mod Callsites
mod Learn
