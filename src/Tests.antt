-- ===== src/Tests.antt =====
-- Runs of the development at concrete inputs, and the theorems applied there.
mod Session
mod Parts
mod Stream
mod Hooks
mod Outgoing
mod Sending
mod Greeting
mod Policy
mod Relay
mod Signatures
