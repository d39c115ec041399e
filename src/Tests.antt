-- ===== src/Tests.antt =====
-- Each theorem applied to a concrete input.
pub mod Samples
mod Values
mod Arrays
mod Blobs
mod Compiler
mod Output
mod Text
mod Tables
mod Interned
mod Optimizer
mod Streams
mod Closures
mod Expressions
