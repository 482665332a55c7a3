-- ===== src/Afu/Alloc.antt =====
-- `afu_alloc` makes an AFU that is closed, in order, and empty.
use libocxl.Base.{◌≡◌, ◌≢◌, refl, false, inl, inr, arith, ◌==◌, Bool-cases}
use libocxl.Base.Int.{minus_one}
use libocxl.Types.{OcxlErr, State, OcxlAfu}
use libocxl.Kernel.{Kernel, Ends}
use libocxl.Afu.Open.{afu_init, afu_alloc}
use libocxl.Afu.Close.Stages.{IsSound}
use libocxl.Afu.Close.Failed.{IsEmpty}

-- Closed and not attached.
pub record IsClosed (a : OcxlAfu) : Type 0 where
  pub fd : a.fd ≡ minus_one
  pub global_mmio_fd : a.global_mmio_fd ≡ minus_one
  pub epoll_fd : a.epoll_fd ≡ minus_one
  pub attached : a.attached ≡ false

-- Allocating an AFU runs out of memory, with the state's AFU as it was, or gives the address of the
-- struct that is the state's AFU from then on, which is closed and not attached, with both tables in
-- order and neither areas nor interrupts.
afu_alloc-IsSound :
    ⦃k : Kernel⦄ (s : State)
    → Ends
        (λ h t. (h ≢ 0) × (t.afu_h ≡ h) × IsClosed t.afu × IsSound t.afu × IsEmpty t.afu)
        (λ e t. (e ≡ OcxlErr.no_mem) × (t.afu ≡ s.afu) × (t.afu_h ≡ s.afu_h))
        (afu_alloc s)
unfolding afu_alloc afu_init
afu_alloc-IsSound ⦃k = k⦄ s = elim (Bool-cases (k.malloc s.log k.sizeof_afu == 0)) [
  | inl none_left ↦ rw none_left (refl, refl, refl)
  | inr fresh ↦ rw fresh (
    λ e. ground arith,
    refl,
    record { fd = refl; global_mmio_fd = refl; epoll_fd = refl; attached = refl },
    record {
      mmios = record { size = refl; used = tt; room = omega arith; bound = omega arith };
      irqs = record {
        table = record { size = refl; used = tt; room = omega arith; bound = omega arith };
        allocated = λ e. refl;
        closable = λ j q e h. cc;
      };
    },
    record { no_areas = refl; no_irqs = refl },
  )
]
