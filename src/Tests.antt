-- ===== src/Tests.antt =====
-- Concrete states on which the theorems are applied, and runs of the program on them.
mod Fixture
mod Devices
mod Sightings
mod Delivery
mod Requests
mod Packets
mod Listing
mod Values
mod Running
mod Rounds
mod Statuses
mod Queries
mod Stored
mod Starting
mod Neighbours
mod Announcing
