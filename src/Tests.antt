-- ===== src/Tests.antt =====
-- Each result at concrete inputs, by the part of the program that it is about.
mod Resolving
mod Framing
mod Enrollment
mod Access
mod Relays
mod Registry
mod Relaying
mod Probing
mod Connecting
mod Linking
mod Striking
