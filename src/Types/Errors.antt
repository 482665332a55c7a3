-- ===== src/Types/Errors.antt =====
-- The enumerations of src/include/libocxl.h, and the error strings of src/setup.c.
use libocxl.Base.{ℕ}

-- `ocxl_err`
pub data OcxlErr : Type 0 where
  ok no_mem no_dev no_context no_irq internal_error already_done out_of_bounds : OcxlErr
  no_more_contexts invalid_args : OcxlErr

-- `ocxl_endian`; `other` is any value of the C enum without a name.
pub data OcxlEndian : Type 0 where
  big_endian little_endian host_endian : OcxlEndian
  other : ℕ → OcxlEndian

-- `ocxl_mmio_type`; `other` is any value of the C enum without a name.
pub data OcxlMmioType : Type 0 where
  global_mmio per_pasid_mmio : OcxlMmioType
  other : ℕ → OcxlMmioType

-- `ocxl_event_action`
pub data OcxlEventAction : Type 0 where
  success fail none_pending ignore : OcxlEventAction
