-- ===== src/Lib.antt =====
-- libocxl, the user library for OpenCAPI accelerators (AFUs).
--
-- An application opens an AFU, attaches its address space, maps the MMIO areas of the AFU, reads and
-- writes them, and allocates interrupts. The files model the C sources of the library:
--
-- Types, Types/*: the enumerations of src/include/libocxl.h, the structs of
--   src/libocxl_internal.h, the globals of src/internal.c, and the history of the calls made
--   outside the library.
-- Kernel, Kernel/*: the calls that the library makes to the kernel, the C library and the device.
--   They are no code of the repository: their answers are a parameter, the record Kernel, whose
--   fields are functions of the whole history before the call. Kernel.Monad has the type Cmd of the
--   modelled functions, which end with a value, with an error code, or with a fault, which stands
--   for behaviour that C leaves undefined.
-- Message: errmsg of src/internal.c, the switches and handlers of src/setup.c and src/afu.c. A
--   message is the handler called and the error code.
-- Buffer, Buffer/*: grow_buffer of src/internal.c. A buffer has an address and elements, which are
--   indeterminate, cleared, or hold a value.
-- Endian, Endian/*: the byte order conversions of <endian.h> on a host of either byte order.
-- Mmio, Mmio/*: src/mmio.c. Register is register_mmio, Map is global_mmio_open, global_mmio_map,
--   mmio_map and ocxl_mmio_map_advanced, Region is ocxl_mmio_unmap, the getters and mmio_check, and
--   Access has the native and the converted reads and writes.
-- Afu, Afu/*: src/afu.c. Open has afu_init, afu_alloc, afu_open, ocxl_afu_attach and the getters;
--   Close has ocxl_afu_close, and open_found, the end of ocxl_afu_open_from_dev, which opens an AFU
--   that has been found and closes it if that fails; Search has libocxl_init of src/internal.c and
--   the search of populate_metadata, get_afu_by_path and ocxl_afu_open_specific; Ledger counts calls
--   in the history. The search reads the name of a directory's entry after closedir: what is there
--   then is a parameter, and a fault if nothing can be read. trace_metadata only prints and is left
--   out.
-- Irq, Irq/*: irq_dealloc, irq_allocate, ocxl_irq_alloc and the getters of src/irq.c. Release is
--   about irq_dealloc, Acquire and Alloc about irq_allocate, Append about ocxl_irq_alloc; Ledger
--   counts in the history what an interrupt takes and gives back.
-- Events, Events/*: read_afu_event, ocxl_afu_event_check_versioned and ocxl_afu_get_p9_thread_id of
--   src/irq.c. Read is about one event, Drain and Overrun about the loop that reads the AFU's
--   events, Ready and Sources about the loop over what epoll reports, Check about the whole call.
-- Session, Session/*: any sequence of calls on an open AFU, as a relation between states, and
--   then ocxl_afu_close. A call is allowed if it respects the bounds of the tables and areas, and,
--   for a check for events, if whatever epoll could report, after any history of calls, has no stale
--   address of an interrupt and fits into the application's array. It joins the parts:
--   Balance is the invariant, Kept has one lemma for each call, Counts is about the calls that
--   closing makes, Released has the results.
-- Weq, Weq/*: the work element queue of samples/memcpy/memcpy.c, a ring whose wrap bit tells the
--   device new elements from old ones. Laps is about the ring; Stores has the stores that carry its
--   operations out, Memory what stores leave in memory, Published and Cleared relate the two.
-- Memcpy, Memcpy/*: the rest of that sample, but for main and its options. Memcpy has the two
--   areas, the waits wait_for_irq, wait_for_status and wait_for_wake_host_thread, and Copy has
--   afu_memcpy, in the steps introduce, submit, await and finish. Check, Taken and Wait are about
--   wait_for_irq, Verdict says what its result means, Areas and Introduce are about the first steps,
--   Complete about the success of wait_for_irq, Poll and Wake about the other two waits, Notify and
--   Submit about the elements of a copy.
--
-- The AFU tests and the unit tests are not modelled: the former drive particular devices and print
-- what they measure, and ocxl_memcpy has the queue and the waits of the sample; the latter are tests
-- of the library over a file system that stands in for a device.
--
-- Base, Base/*: shared names, lists, integers.
-- Tests, Tests/*: a concrete kernel and the theorems at concrete inputs.
--
-- A handle of an MMIO area is a pointer into the buffer of areas: a buffer's address and an index.
-- Following it is a fault if the buffer has moved. Numbers of C types keep their width: a uint16_t
-- count wraps at 2^16, a size_t at 2^64, and an off_t is an integer that casts to a size_t.
-- The model is that of a PPC64 build. One AFU is in the state; the mutexes, the text of messages,
-- tracing and the memory barriers are not modelled. The loop that reads the AFU's events ends when
-- the kernel has no more of them, so its model takes fuel: a number of rounds. One more than a
-- measure that no call raises and each event read lowers is enough. The waits of the sample take
-- three more numbers: one round more than a measure of the reports of epoll that are still to come,
-- and two more than one of these and of the readings of the clock before the deadline.
pub mod Base
pub mod Types
pub mod Kernel
pub mod Message
pub mod Buffer
pub mod Endian
pub mod Mmio
pub mod Afu
pub mod Irq
pub mod Events
pub mod Session
pub mod Weq
pub mod Memcpy
mod Tests
