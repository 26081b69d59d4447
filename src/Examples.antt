-- ===== src/Examples.antt =====
-- The theorems at concrete inputs, by the part of the program that they are about.
mod Data
mod Sinks
mod Pins
mod Sources
mod Modules
mod Channels
mod Descriptions
mod Sessions
mod Writers
mod Shutdowns
