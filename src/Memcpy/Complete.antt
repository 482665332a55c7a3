-- ===== src/Memcpy/Complete.antt =====
-- `wait_for_irq` when the completion interrupt is there.
use libocxl.Base.{
  ℕ, suc, ◌+◌, ◌*◌, ◌^◌, ◌≤◌, ◌<◌, ◌≡◌, ◌≢◌, refl, true, false, not, ◌&&◌, some, [], arith, ltb,
  ◌==◌,
}
use libocxl.Base.Int.{pos}
use libocxl.Types.{OcxlEndian, OcxlMmioArea, OcxlMmioH, OcxlIrq, State, indeterminate}
use libocxl.Kernel.{Kernel, done}
use libocxl.Mmio.Register.{area_at}
use libocxl.Mmio.Access.Transfer.{IsMapped, stored, write-bounds}
use libocxl.Events.{grow_events}
use libocxl.Events.Delivered.{counted, IsReported, event_check-delivers}
use libocxl.Memcpy.{
  check_timeout, restart_afu_if_stopped, take_event, check_event, after_check, irq_loop,
  wait_for_irq,
}

module _ ⦃k : Kernel⦄ (base slot : ℕ) (a : OcxlMmioArea) (t : State) where
  -- The handle points to a mapped area that has the control register.
  pub record HasControl : Type 0 where
    pub area : area_at (OcxlMmioH.area base slot) t ≡ some a
    pub mapped : IsMapped a
    pub long : 32 ≤ a.length

  -- The control register has been written with the restart bit.
  abbrev pub restarted : State
  restarted = stored 8 0x18 OcxlEndian.little_endian a t 1

  restart-restarted :
      HasControl → restart_afu_if_stopped (OcxlMmioH.area base slot) t ≡ done false restarted
  unfolding restart_afu_if_stopped
  restart-restarted h =
      let within : ltb a.length (0x18 + 8) ≡ false = ground (arith, h.long) in
      let write =
        write-bounds base slot 0x18 OcxlEndian.little_endian a t h.area h.mapped (omega arith) 1 in
      rw (write.1, within) refl

module _ ⦃k : Kernel⦄ (rounds reads timeout base slot i err_ea count : ℕ) (q : OcxlIrq)
    (a : OcxlMmioArea) (s u : State) where
  -- If epoll reports the completion interrupt, which is in the table at the address that epoll has,
  -- and its event descriptor can be read, waiting for it returns 0 in the first round, and the last
  -- call is the store that tells the AFU to go on; the array for epoll can be grown, the handle
  -- points to a mapped area that has the control register, and the timeout fits in an int.
  pub wait_for_irq-completes :
      grow_events 1 s ≡ done tt u
      → IsReported i q 1 (pos (timeout * 1000)) count u
      → HasControl base slot a u
      → q.addr ≢ 0
      → timeout * 1000 < 2 ^ 31
      → wait_for_irq (suc rounds) reads timeout (OcxlMmioH.area base slot) q.addr err_ea s
        ≡ done (some 0) (restarted base slot a (counted i q 1 (pos (timeout * 1000)) count u))
  unfolding wait_for_irq check_timeout irq_loop check_event after_check take_event
  wait_for_irq-completes grown reported control page fits =
      let test : ltb (timeout * 1000) (2 ^ 31) ≡ true = ground arith in
      let check =
        event_check-delivers i q 1 (pos (timeout * 1000)) count u reads s indeterminate [] grown
          reported in
      let ours : (not (q.addr == 0) && (q.addr == q.addr)) ≡ true = ground arith in
      let t = counted i q 1 (pos (timeout * 1000)) count u in
      let restart =
        restart-restarted base slot a t
          (record { area = control.area; mapped = control.mapped; long = control.long }) in
      rw (test, check, ours, restart) refl
