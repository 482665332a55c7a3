-- ===== src/Afu/Close.antt =====
-- `ocxl_afu_close` of src/afu.c, and the end of `ocxl_afu_open_from_dev`, which closes an AFU that
-- could not be opened. The state keeps the last values of a struct that has been freed.
pub mod Loops
pub mod Stages
pub mod Released
pub mod Failed
pub mod Leaks
use Prim.Native.String.{String}
use libocxl.Base.{ℕ, zero, suc, ◌+◌, false, not, Option, none, some, [], ◌==◌}
use libocxl.Base.Int.{is_neg, is_minus_one, minus_one}
use libocxl.Types.{OcxlErr, OcxlMmioH, OcxlAfu, State}
use libocxl.Kernel.{
  Kernel, Outcome, done, failed, fault, Cmd, pure, gets, on_error, return_err, ◌>>=◌, ◌>>◌,
  modify_afu, when, close_fd, free,
}
use libocxl.Mmio.Region.{ocxl_mmio_unmap}
use libocxl.Irq.{irq_dealloc}
use libocxl.Afu.Open.{afu_open}

-- What `ocxl_afu_close` returns is ignored.
abbrev pub close_ignored : Outcome (Unit {0}) → OcxlErr → Outcome (Unit {0})
close_ignored (done _ s) rc = return_err rc s
close_ignored (failed _ s) rc = return_err rc s
close_ignored fault rc = fault

-- `ocxl_afu_open_from_dev` once the AFU has been found.
module _ ⦃k : Kernel⦄ where
  -- `if (path) { free(path); … }`
  abbrev pub free_path : Option (ℕ × String) → Cmd (Unit {0})
  free_path none = pure tt
  free_path (some (block, text)) = free block

  -- Unmaps the `n` areas from index `i` on.
  pub unmap_areas : (n i : ℕ) → Cmd (Unit {0})
  unmap_areas zero i = pure tt
  unmap_areas (suc n) i = do
    base ← gets (λ s. s.afu.mmios.base)
    ocxl_mmio_unmap (OcxlMmioH.area base i)
    unmap_areas n (i + 1)

  -- Deallocates the `n` interrupts from index `i` on.
  pub dealloc_irqs : (n i : ℕ) → Cmd (Unit {0})
  dealloc_irqs zero i = pure tt
  dealloc_irqs (suc n) i = do irq_dealloc i; dealloc_irqs n (i + 1)

  pub close_global_mmio : Cmd (Unit {0})
  close_global_mmio = do
    fd ← gets (λ s. s.afu.global_mmio_fd)
    when (not (is_minus_one fd))
        (do close_fd fd; modify_afu (λ a. record a { global_mmio_fd = minus_one }))

  pub release_irqs : Cmd (Unit {0})
  release_irqs = do
    irqs ← gets (λ s. s.afu.irqs.base)
    when (not (irqs == 0)) (do
      count ← gets (λ s. s.afu.irq_count)
      dealloc_irqs count 0
      free irqs
      modify_afu (λ a. record a {
        irqs = record { base = 0; cells = [] };
        irq_count = 0;
        irq_max_count = 0;
      }))

  pub close_descriptors : Cmd (Unit {0})
  close_descriptors = do
    afu ← gets (λ s. s.afu)
    when (not (afu.epoll_events == 0))
        (do free afu.epoll_events; modify_afu (λ a. record a { epoll_event_count = 0 }))
    close_fd afu.epoll_fd
    modify_afu (λ a. record a { epoll_fd = minus_one })
    close_fd afu.fd
    modify_afu (λ a. record a { fd = minus_one; attached = false })

  pub free_afu : Cmd (Unit {0})
  free_afu = do
    afu ← gets (λ s. s.afu)
    free_path afu.device_path
    modify_afu (λ a. record a { device_path = none })
    free_path afu.sysfs_path
    modify_afu (λ a. record a { sysfs_path = none })
    afu_h ← gets (λ s. s.afu_h)
    free afu_h

  pub ocxl_afu_close : Cmd (Unit {0})
  ocxl_afu_close = do
    closed ← gets (λ s. is_neg s.afu.fd)
    when closed (return_err OcxlErr.already_done)
    areas ← gets (λ s. s.afu.mmio_count)
    unmap_areas areas 0
    close_global_mmio
    release_irqs
    close_descriptors
    free_afu

  pub open_found : Cmd (Unit {0})
  open_found = on_error afu_open (λ rc s. close_ignored (ocxl_afu_close s) rc)
