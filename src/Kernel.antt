-- ===== src/Kernel.antt =====
-- src/include/pdxearch/pdxearch.hpp: the search kernel over one index, at the default quantization
-- U8, where `distance_t` is `uint32_t` and the stored data are bytes.
pub mod Float
pub mod Heap
pub mod Positions
pub mod Index
pub mod Scan
pub mod Global
pub mod Store
pub mod Search
