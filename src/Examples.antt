-- ===== src/Examples.antt =====
-- Runs of the definitions at concrete inputs.
mod Router
mod Update
mod Upload
mod Client
mod Device
mod Maps
mod Erase
mod Messages
mod Container
mod Main
mod Devmap
mod Firmware
mod Startup
