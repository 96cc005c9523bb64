-- ===== src/Tests.antt =====
-- Runs of the models, and the theorems at concrete inputs.
mod Heap
mod Paths
mod Disk
mod Keyboard
mod Paging
mod Devices
mod File
mod Elf
mod Fat
mod Tasks
mod UserMemory
mod Loading
mod SystemCalls
mod Stdlib
mod Shell
mod Interrupts
mod Processes
mod Startup
mod Succeeds
mod Driver
