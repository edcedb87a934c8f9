-- ===== src/Ebpf.antt =====
-- src/ebpf/ebpf_loader.cpp and src/ebpf/ring_buffer_reader.cpp.
pub mod Loader
pub mod Layout
pub mod RingBuffer
pub mod Decoding
pub mod Processes
pub mod Delivery
pub mod Resources
pub mod Polling
pub mod Interleavings
pub mod Stopping
pub mod Variants
