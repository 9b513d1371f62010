-- ===== src/Tests.antt =====
-- Tests of the definitions, and the theorems at concrete inputs.
mod Zones
mod Maps
mod Strings
mod Requests
mod Upstream
mod Plugins
mod Passing
mod Configuration
