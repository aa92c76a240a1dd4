-- ===== src/Tests.antt =====
-- The theorems at concrete inputs, and runs of the definitions.
mod Cache
mod Interleaving
mod Frames
mod Experiments
mod Receivers
mod Buffers
mod Programs
mod Module
mod Helpers
mod Attaching
mod Measuring
mod Pins
mod Files
