-- ===== src/Tests.antt =====
-- Runs of the model on concrete inputs.
mod Platforms
mod Values
mod Trees
mod Channels
mod Daemons
mod Files
mod Caches
mod Writers
mod Served
mod Clients
