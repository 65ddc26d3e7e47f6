-- ===== src/Tests.antt =====
-- The theorems at concrete inputs, and runs of the model that can be followed in the source.
mod Io
mod Chat
mod Server
mod Guest
mod Machine
mod SelfTest
mod Threads
mod Programs
mod Locks
mod Callers
mod Memory
mod Plugged
mod Room
