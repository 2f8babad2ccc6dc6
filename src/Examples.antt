-- ===== src/Examples.antt =====
-- Runs of the code on small inputs, and each theorem at an input that meets its hypotheses.
mod Disks
mod Protocols
mod Tables
mod Reads
mod Menus
mod Images
mod Volumes
mod Devices
mod Initrds
mod Digests
mod Growing
