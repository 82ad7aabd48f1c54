-- ===== src/Examples.antt =====
-- Concrete inputs of the modelled functions, and the theorems applied to them.
mod Alloc
mod Chains
mod Codes
mod Creation
mod Directories
mod Files
mod Images
mod Inodes
mod OnePage
mod PageCache
mod Paths
mod Split
mod Tables
