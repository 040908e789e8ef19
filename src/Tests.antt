-- ===== src/Tests.antt =====
-- Runs on concrete inputs, and the theorems at such inputs.
mod Levels
mod Pools
mod RefMaps
mod Molds
mod Sides
mod Soups
mod Sims
mod Engines
mod Books
mod Pipes
mod Recoveries
mod Risks
