-- ===== src/Tests.antt =====
-- Programs under test for the definitions, and runs of the model on them.
mod Oracle
mod Run
mod Relay
mod Ends
mod Replay
mod Paired
mod Steps
mod Properties
mod Drive
mod Failures
mod Edn
mod Guard
