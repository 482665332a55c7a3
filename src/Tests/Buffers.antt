-- ===== src/Tests/Buffers.antt =====
-- Growing buffers at concrete inputs.
use libocxl.Base.{◌^◌, ◌≡◌, refl, [], arith, length}
use libocxl.Types.{OcxlErr, Buffer, OcxlIrq}
use libocxl.Kernel.{Ends}
use libocxl.Buffer.{grow_buffer}
use libocxl.Buffer.Grow.{IsGrown, grow_buffer-IsGrown, grow_buffer-wraps}
use libocxl.Buffer.Clear.{grow_buffer-clears, ClearedBytes}
use libocxl.Tests.Setup.{friendly, afu, start}

grow_buffer-IsGrown_example :
    Ends
      (λ r s'. IsGrown afu.irqs 1 64 r × (s'.afu ≡ afu))
      (λ e s'. (e ≡ OcxlErr.no_mem) × (s'.afu ≡ afu))
      (grow_buffer afu.irqs 1 56 64 start)
grow_buffer-IsGrown_example =
    grow_buffer-IsGrown afu.irqs 1 56 64 start
      (record { size = refl; used = tt; room = omega arith; bound = omega arith }) (omega arith)
      (omega arith) (omega arith)

abbrev empty : Buffer OcxlIrq
empty = record { base = 0; cells = [] }

grow_buffer-wraps_example :
    Ends
      (λ r s'. (r.1 ≡ 0) × (length r.0.cells ≡ 2 ^ 16))
      (λ e s'. (e ≡ OcxlErr.no_mem) × (s'.afu ≡ afu))
      (grow_buffer empty 32768 56 64 start)
grow_buffer-wraps_example = grow_buffer-wraps empty 32768 56 64 start refl

grow_buffer-clears_example :
    Ends
      (λ r s'. ClearedBytes r.0.cells 64 56 64)
      (λ e s'. (e ≡ OcxlErr.no_mem) × (s'.afu ≡ afu))
      (grow_buffer empty 0 56 64 start)
grow_buffer-clears_example = grow_buffer-clears 56 64 (omega arith) empty start refl
