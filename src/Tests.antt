-- ===== src/Tests.antt =====
-- Runs of the program on a concrete platform, and the theorems at concrete inputs.
mod States
mod Printing
mod Ending
mod Commanding
mod Sessions
mod Lives
mod Pipes
mod Options
mod Processes
mod Racing
mod Settling
mod Listings
