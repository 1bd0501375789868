-- ===== src/Tests.antt =====
-- Concrete runs, and the theorems at concrete inputs.
mod Data
mod Crc
mod Rpmsg
mod Modbus
mod Can
mod Service
mod Demo1
mod Config
mod Acquisition
mod Executor
mod Files
mod Rolling
mod A53
mod Led
mod Public
mod Rtu
mod Mqtt
mod Runtime
