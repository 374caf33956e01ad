-- ===== src/Tests.antt =====
-- A small machine, and the theorems at work on it.
mod Machine
mod Host
mod Codec
mod Json
mod Hw
mod Methods
mod Daemon
mod Main
mod Gui
mod Screen
mod Client
mod Offers
mod Sockets
mod Resumed
mod Restart
mod Hints
mod Ctl
