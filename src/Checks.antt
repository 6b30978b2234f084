-- ===== src/Checks.antt =====
-- The theorems at concrete values: each hypothesis holds there.
mod Samples
mod Storing
mod Asking
mod Delivering
mod Queueing
mod Dispatching
mod Reading
mod Messaging
