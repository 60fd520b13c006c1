-- ===== src/Tests.antt =====
-- Runs of the model on concrete packets, and the theorems at concrete inputs.
mod Texts
mod Authentication
mod Addresses
mod Wire
mod Session
mod Requests
mod Attributes
mod AvPairs
mod Decisions
mod Scripts
