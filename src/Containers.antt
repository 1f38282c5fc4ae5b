-- ===== src/Containers.antt =====
-- std::set and std::map of the master, as lists.
pub mod IntSet
pub mod IntMap
pub mod TextSet
pub mod TextMap
