-- ===== src/Memory.antt =====
-- kernel/src/memory.rs and kernel/src/heap.rs: the memory map, the frame allocator, the page-table walk and
-- the mapping of pages.
pub mod Region
pub mod Summary
pub mod Frames
pub mod Inside
pub mod Fresh
pub mod Walk
pub mod Translation
pub mod Mapper
pub mod Mapping
pub mod Heap
pub mod Backing
pub mod Joined
pub mod HeapLaws
pub mod MappingLaws
pub mod PageList
mod Tests
