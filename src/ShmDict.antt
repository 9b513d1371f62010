-- ===== src/ShmDict.antt =====
-- module_shm_dict: the key-value store in shared memory.
pub mod Platform
pub mod Node
pub mod Rbtree
pub mod Order
pub mod Zone
pub mod Expire
pub mod Access
pub mod Valid
pub mod Contents
pub mod Abstract
pub mod Traces
pub mod Strtok
pub mod Start
pub mod Directive
pub mod Interface
pub mod Handlers
pub mod Sample
