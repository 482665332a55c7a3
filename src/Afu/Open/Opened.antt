-- ===== src/Afu/Open/Opened.antt =====
-- `afu_open` keeps every descriptor that it opens in the AFU, whether it succeeds or fails.
use mathlib.Core.Path.{subst}
use libocxl.Base.{ℕ, ◌≡◌, ◌≢◌, sym, ap, ◌∙◌, true, false, none}
use libocxl.Base.Int.{is_neg, is_minus_one, minus_one}
use libocxl.Types.{OcxlErr, OcxlAfu, State}
use libocxl.Kernel.{Kernel, Ends, Ends-bind, Ends-mono, Ends-cleanup}
use libocxl.Mmio.Map.{path_text}
use libocxl.Afu.Open.{afu_open}
use libocxl.Afu.Open.Steps.{
  IsStep, IsStep-trans, DeviceOpened, NothingOpened, GlobalOpened, EpollOpened, DeviceKept,
  MetadataRead, open_device-Step, global_mmio_open-Step, open_epoll-Step, read_metadata-Step,
}

-- An AFU that has been found and is not open.
pub record IsFresh (a : OcxlAfu) : Type 0 where
  pub fd : a.fd ≡ minus_one
  pub global_mmio_fd : a.global_mmio_fd ≡ minus_one
  pub epoll_fd : a.epoll_fd ≡ minus_one
  pub device_path : path_text a.device_path ≢ none
  pub sysfs_path : path_text a.sysfs_path ≢ none

module _ (n : ℕ) ⦃k : Kernel⦄ (s : State) where
  -- The AFU is open, with all three descriptors.
  abbrev pub Opened : Unit {0} → State → Type 0
  Opened _ t =
      IsStep n s t
      × (is_neg t.afu.fd ≡ false)
      × (is_neg t.afu.global_mmio_fd ≡ false)
      × (is_neg t.afu.epoll_fd ≡ false)

  -- Opening failed; without a device descriptor, the AFU is as it was.
  abbrev pub NotOpened : OcxlErr → State → Type 0
  NotOpened _ t = IsStep n s t × (is_neg t.afu.fd ≡ true → t.afu ≡ s.afu)

  kept_open :
      (t u : State)
      → is_neg t.afu.fd ≡ false
      → IsStep n s t
      → IsStep n t u
      → u.afu.fd ≡ t.afu.fd
      → IsStep n s u × (is_neg u.afu.fd ≡ true → u.afu ≡ s.afu)
  kept_open t u opened p q same = (IsStep-trans n s t u p q, λ bad. cc)

  -- Opening an AFU that has been found and is not open has no fault. Each descriptor is opened as
  -- often as it comes to be held by the AFU, and none is closed, whether opening succeeds or fails.
  -- If it succeeds, the three descriptors of the AFU are no negative numbers; if it fails without a
  -- device descriptor, the AFU is as it was.
  pub afu_open-Opened : IsFresh s.afu → Ends Opened NotOpened (afu_open s)
  unfolding afu_open
  afu_open-Opened f =
      let closed = ap is_minus_one f.fd in
      rw closed (
        Ends-bind (DeviceOpened n s) (NothingOpened n s) Opened NotOpened _ _
          (open_device-Step n s f.fd f.device_path)
          (λ _ t (p, opened, o).
            Ends-bind (GlobalOpened n t) (NothingOpened n t) Opened NotOpened _ _
              (Ends-cleanup (GlobalOpened n t) (NothingOpened n t) (NothingOpened n t) _ _
                (global_mmio_open-Step n t
                  (ap (λ (a : OcxlAfu). a.global_mmio_fd) o ∙ f.global_mmio_fd)
                  (subst (λ (a : OcxlAfu). path_text a.sysfs_path ≢ none) (sym o) f.sysfs_path))
                (λ e u (q, same). (
                  record {
                    opened = q.opened;
                    closed = q.closed;
                    others = q.others;
                    handle = q.handle;
                  },
                  same,
                )))
              (λ _ u (q, global, o').
                let fd_u = ap (λ (a : OcxlAfu). a.fd) o' in
                let pq = IsStep-trans n s t u p q in
                Ends-bind (EpollOpened n u) (DeviceKept n u) Opened NotOpened _ _
                  (open_epoll-Step n u (
                    ap (λ (a : OcxlAfu). a.epoll_fd) o'
                    ∙ ap (λ (a : OcxlAfu). a.epoll_fd) o
                    ∙ f.epoll_fd))
                  (λ _ v (r, epoll, o'').
                    let fd_v = ap (λ (a : OcxlAfu). a.fd) o'' ∙ fd_u in
                    let global_v = ap (λ (a : OcxlAfu). a.global_mmio_fd) o'' in
                    let qr = IsStep-trans n t u v q r in
                    Ends-mono (MetadataRead n v) (DeviceKept n v) Opened NotOpened _
                      (read_metadata-Step n v)
                      (λ _ w (x, a, b, c). (
                        IsStep-trans n s v w (IsStep-trans n s u v pq r) x,
                        ap is_neg (a ∙ fd_v) ∙ opened,
                        ap is_neg (b ∙ global_v) ∙ global,
                        ap is_neg c ∙ epoll,
                      ))
                      (λ e w (x, a). kept_open t w opened p (IsStep-trans n t v w qr x) (a ∙ fd_v)))
                  (λ e v (r, a). kept_open t v opened p (IsStep-trans n t u v q r) (a ∙ fd_u)))
              (λ e u (q, same). kept_open t u opened p q (ap (λ (a : OcxlAfu). a.fd) same)))
          (λ e t (p, same). (p, λ _. same)))
