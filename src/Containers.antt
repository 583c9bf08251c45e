-- ===== src/Containers.antt =====
-- The containers of include/common.
pub mod Fifo
pub mod HashTbl
pub mod OlderHashTbl
pub mod ListSpecial
pub mod OwningList
pub mod ListspecialAndHashtbl
pub mod SimpleStack
