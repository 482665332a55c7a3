-- ===== src/Types.antt =====
-- The types of src/include/libocxl.h and src/libocxl_internal.h.
mod Errors
mod Structs
mod World
pub use Errors.*
pub use Structs.*
pub use World.*
