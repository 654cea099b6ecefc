-- ===== src/Tests.antt =====
-- Runs of the modelled functions on small inputs, and the theorems at inputs that meet their
-- hypotheses.
mod Syntax
mod Jobs
mod Terminal
mod Hop
mod Resume
mod Main
mod Mlfq
mod Life
mod Peek
mod Reveal
mod Snoop
mod Spy
mod Spawn
mod Locate
