-- ===== src/Tests.antt =====
-- Concrete states and calls at which the hypotheses of the theorems hold.
mod Data
mod Heaps
mod Queues
mod Quota
mod Races
mod Rounds
mod Disjoint
mod Specifications
mod Informers
mod Programs
mod Commands
mod Visits
mod Cares
