-- ===== src/Tests.antt =====
-- Tests of the definitions at inputs of the source's own tests, and the witnesses of the theorems.

mod Data
mod Open
mod Std
mod Plan
mod Enforce
mod Api
mod Kernel
mod Daemon
mod Witnesses
