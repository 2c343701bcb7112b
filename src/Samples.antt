-- ===== src/Samples.antt =====
-- Concrete libraries, worlds and tests: a JSON type with the calls of json-glib on it, splitting and
-- joining of strings, and the instances of the theorems.
pub mod Values
pub mod Parts
pub mod World
mod Channels
mod Sessions
mod Messages
mod Threads
mod Connections
mod Calls
mod Serving
mod Memory
mod Tables
mod Listening
mod Answers
mod Firing
mod Programs
mod Arrivals
