-- ===== src/Kernel.antt =====
-- What the library calls outside itself: the kernel, the C library's allocator and the device.
-- None of it is code of the repository, so its answers are a parameter of the model: functions of
-- the history of all calls before, with no assumption. `Kernel.Monad` has the monad of the model,
-- `Kernel.Calls` one command for each call.
mod Defs
mod Monad
mod Calls
mod Frame
pub use Defs.*
pub use Monad.*
pub use Calls.*
pub use Frame.*
