-- ===== src/Tests.antt =====
-- Tests of the definitions on small inputs, and the theorems applied to such inputs.
mod Tx
mod Ps
mod Coex
mod Replay
mod Boot
mod Opmode
mod Bus
mod Stations
mod Vifs
mod Rates
mod Init
mod Bluedroid
mod Sdio
mod Rx
mod Xmit
mod Beacon
