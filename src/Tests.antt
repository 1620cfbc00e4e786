-- ===== src/Tests.antt =====
-- Tests: the theorems at concrete inputs, over a simulated system.
mod Sim
mod Sockets
mod Brokers
mod Journeys
mod Asked
mod Files
mod Bytes
mod Clients
mod Configs
mod Opened
mod Lists
mod Mains
