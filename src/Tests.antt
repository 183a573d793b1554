-- ===== src/Tests.antt =====
-- Runs of the models of src/ on concrete inputs, and the theorems at such inputs.
mod Toy
mod Signing
mod Short
mod Policy
mod Envelope
mod Kek
mod Auth
mod RateLimit
mod Aad
mod Services
mod Api
mod V1
mod App
mod Sessions
mod Traffic
mod Restart
mod Envelopes
mod Overlap
mod Fresh
mod Schemas
mod Outer
mod Startup
mod Memory
