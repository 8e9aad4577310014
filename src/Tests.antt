-- ===== src/Tests.antt =====
-- The theorems at concrete inputs, one module for each part of the program.
mod Protocol
mod Escape
mod Daemon
mod Order
mod Server
mod Connect
mod Client
mod Security
mod CommandLine
mod Keyboard
mod Screen
mod System
mod Main
