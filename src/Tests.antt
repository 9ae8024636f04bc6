-- ===== src/Tests.antt =====
-- Tests, and the theorems at concrete inputs.
mod Fixed
mod Frames
mod Lines
mod Charge
mod Packs
mod Reports
mod Drivers
mod Buses
mod Sockets
mod Inverters
mod JkReports
mod LinkedLists
mod Configurations
mod Workers
mod Sunny
mod Packets
mod Remote
mod Setups
mod JkReads
mod ConfigTables
mod Units
mod Arrivals
mod Elements
mod Startups
