-- ===== src/Examples.antt =====
-- The program run on the samples, and each theorem applied to one.
mod Running
mod Claims
mod Reaps
mod Registers
mod Attempts
mod Ticks
mod Histories
mod Interleavings
mod Starts
mod Seeds
mod Requests
mod Logins
mod Api
mod Entries
mod Screens
mod Forms
