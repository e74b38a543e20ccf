-- ===== src/Tests.antt =====
-- The theorems at concrete inputs, where their hypotheses hold.
mod Maps
mod Texts
mod Trees
mod Documents
mod Passes
mod Includes
mod Reads
mod Visits
mod Stores
mod Configs
mod Objects
