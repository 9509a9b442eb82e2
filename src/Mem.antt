-- ===== src/Mem.antt =====
-- libkernel/src/memory: addresses and regions, the areas of a process and their map.
pub mod Region
pub mod Vma
pub mod AddressSpace
pub mod BTree
pub mod Map
pub mod RegionList
pub mod Smalloc
pub mod Frames
pub mod Slab
pub mod Kbuf
