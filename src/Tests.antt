-- ===== src/Tests.antt =====
-- Tests of the definitions at concrete inputs, and applications of the theorems.
mod Samples
mod Sending
mod Storing
mod Receiving
mod Relaying
mod Requests
mod Comparing
mod Tasks
mod Sorting
mod Dispatch
mod Serializing
mod Queueing
