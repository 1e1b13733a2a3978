-- ===== src/Tests.antt =====
-- Runs of the model on small inputs, and the theorems applied at inputs that meet their hypotheses.
mod Caches
mod Pairs
mod Vlans
mod Bridges
mod Tunnels
mod Ports
mod Groups
mod Interfaces
mod Routers
