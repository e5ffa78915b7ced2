-- ===== src/Tests.antt =====
-- Small inputs, what the program does on them, and the theorems at such inputs.
mod Samples
mod Formats
mod Hosts
mod Elections
mod Clients
mod Servers
mod Images
mod Choices
mod Store
mod Cycles
mod Workers
