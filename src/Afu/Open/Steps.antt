-- ===== src/Afu/Open/Steps.antt =====
-- The stages of `afu_open`: each keeps the descriptor that it opens in the AFU.
use Prim.Native.String.{len}
use libocxl.Base.{
  ℕ, ◌+◌, ◌≡◌, refl, ap, ◌∙◌, ◌≢◌, none, ◌∷◌, true, false, inl, inr, arith, leb, Bool-cases,
  Option-cases,
}
use libocxl.Base.Int.{ℤ, pos, negsuc, is_neg, minus_one}
use libocxl.Types.{OcxlErr, OcxlAfu, State, Event, EpollFdSource}
use libocxl.Kernel.{Kernel, Ends}
use libocxl.Mmio.Map.{path_text, mmio_path, sizeof_path, global_mmio_open}
use libocxl.Afu.Ledger.{is_fd, opens, closes}
use libocxl.Afu.Open.{open_device, open_epoll, read_metadata}

module _ (n : ℕ) where
  -- How many of the AFU's three descriptors are `n`.
  abbrev pub held : OcxlAfu → ℕ
  held a = is_fd n a.fd + is_fd n a.global_mmio_fd + is_fd n a.epoll_fd

  -- From `s` to `t` descriptor `n` was opened as often as it has come to be held by the AFU and was
  -- not closed; nothing but the descriptors and the metadata of the AFU has changed.
  pub record IsStep (s t : State) : Type 0 where
    pub opened : opens n t.log + held s.afu ≡ held t.afu + opens n s.log
    pub closed : closes n t.log ≡ closes n s.log
    pub others : t.afu ≡ record s.afu {
      fd = t.afu.fd;
      global_mmio_fd = t.afu.global_mmio_fd;
      epoll_fd = t.afu.epoll_fd;
      version_major = t.afu.version_major;
      version_minor = t.afu.version_minor;
      per_pasid_mmio_length = t.afu.per_pasid_mmio_length;
      global_mmio_length = t.afu.global_mmio_length;
      pasid = t.afu.pasid;
    }
    pub handle : t.afu_h ≡ s.afu_h

  pub is_fd-minus_one : is_fd n minus_one ≡ 0
  unfolding is_fd
  is_fd-minus_one = refl

  pub is_fd-neg : (fd : ℤ) → is_neg fd ≡ true → is_fd n fd ≡ 0
  unfolding is_fd
  is_fd-neg (pos m) h = cc
  is_fd-neg (negsuc m) h = refl

  pub IsStep-trans : (s t u : State) → IsStep s t → IsStep t u → IsStep s u
  IsStep-trans s t u p q = record {
    opened = omega (arith, p.opened, q.opened);
    closed = q.closed ∙ p.closed;
    others =
        q.others
        ∙ ap
            (λ (a : OcxlAfu). record a {
              fd = u.afu.fd;
              global_mmio_fd = u.afu.global_mmio_fd;
              epoll_fd = u.afu.epoll_fd;
              version_major = u.afu.version_major;
              version_minor = u.afu.version_minor;
              per_pasid_mmio_length = u.afu.per_pasid_mmio_length;
              global_mmio_length = u.afu.global_mmio_length;
              pasid = u.afu.pasid;
            })
            p.others;
    handle = q.handle ∙ p.handle;
  }

  abbrev pub DeviceOpened : State → Unit {0} → State → Type 0
  DeviceOpened s _ t =
      IsStep s t × (is_neg t.afu.fd ≡ false) × (t.afu ≡ record s.afu { fd = t.afu.fd })

  -- A failure after which the AFU is as it was.
  abbrev pub NothingOpened : State → OcxlErr → State → Type 0
  NothingOpened s _ t = IsStep s t × (t.afu ≡ s.afu)

  module _ ⦃k : Kernel⦄ (s : State) where
    pub open_device-Step :
        s.afu.fd ≡ minus_one
        → path_text s.afu.device_path ≢ none
        → Ends (DeviceOpened s) (NothingOpened s) (open_device s)
    unfolding open_device opens closes
    open_device-Step f some_path = elim (Option-cases (path_text s.afu.device_path)) [
      | inl e ↦ absurd (some_path e)
      | inr (path, e) ↦
          let fd = k.open_file s.log path in
          let l = Event.open_file path fd ∷ s.log in
          let zero = ap (λ x. is_fd n x) f ∙ is_fd-minus_one in
          rw e (elim (Bool-cases (is_neg fd)) [
            | inl bad ↦
                let gone = is_fd-neg fd bad in
                rw bad (
                  record {
                    opened = omega (arith, gone);
                    closed = refl;
                    others = refl;
                    handle = refl;
                  },
                  refl,
                )
            | inr good ↦ rw good (
              record { opened = omega (arith, zero); closed = refl; others = refl; handle = refl },
              good,
              refl,
            )
          ])
    ]

    -- The descriptor of the global area.
    abbrev pub GlobalOpened : Unit {0} → State → Type 0
    GlobalOpened _ t =
        IsStep s t
        × (is_neg t.afu.global_mmio_fd ≡ false)
        × (t.afu ≡ record s.afu { global_mmio_fd = t.afu.global_mmio_fd })

    pub global_mmio_open-Step :
        s.afu.global_mmio_fd ≡ minus_one
        → path_text s.afu.sysfs_path ≢ none
        → Ends GlobalOpened (NothingOpened s) (global_mmio_open s)
    unfolding global_mmio_open opens closes
    global_mmio_open-Step f some_path = elim (Option-cases (path_text s.afu.sysfs_path)) [
      | inl e ↦ absurd (some_path e)
      | inr (text, e) ↦ rw e (elim (Bool-cases (leb sizeof_path (len (mmio_path text)))) [
        | inl long ↦
            rw long
              (record { opened = omega arith; closed = refl; others = refl; handle = refl }, refl)
        | inr fits ↦
            let fd = k.open_file s.log (mmio_path text) in
            let zero = ap (λ x. is_fd n x) f ∙ is_fd-minus_one in
            rw fits (elim (Bool-cases (is_neg fd)) [
              | inl bad ↦
                  let gone = is_fd-neg fd bad in
                  rw bad (
                    record {
                      opened = omega (arith, gone);
                      closed = refl;
                      others = refl;
                      handle = refl;
                    },
                    refl,
                  )
              | inr good ↦ rw good (
                record {
                  opened = omega (arith, zero);
                  closed = refl;
                  others = refl;
                  handle = refl;
                },
                good,
                refl,
              )
            ])
      ])
    ]

    -- The epoll descriptor.
    abbrev pub EpollOpened : Unit {0} → State → Type 0
    EpollOpened _ t =
        IsStep s t
        × (is_neg t.afu.epoll_fd ≡ false)
        × (t.afu ≡ record s.afu { epoll_fd = t.afu.epoll_fd })

    -- A failure after which the device descriptor is as it was.
    abbrev pub DeviceKept : OcxlErr → State → Type 0
    DeviceKept _ t = IsStep s t × (t.afu.fd ≡ s.afu.fd)

    pub open_epoll-Step : s.afu.epoll_fd ≡ minus_one → Ends EpollOpened DeviceKept (open_epoll s)
    unfolding open_epoll opens closes
    open_epoll-Step f =
        let fd = k.epoll_create s.log in
        let l = Event.epoll_create fd ∷ s.log in
        let zero = ap (λ x. is_fd n x) f ∙ is_fd-minus_one in
        elim (Bool-cases (is_neg fd)) [
          | inl bad ↦
              let gone = is_fd-neg fd bad in
              rw bad (
                record {
                  opened = omega (arith, gone);
                  closed = refl;
                  others = refl;
                  handle = refl;
                },
                refl,
              )
          | inr good ↦ rw good (elim (Bool-cases (k.epoll_add l fd s.afu.fd EpollFdSource.ocxl)) [
            | inl added ↦ rw added (
              record { opened = omega (arith, zero); closed = refl; others = refl; handle = refl },
              good,
              refl,
            )
            | inr refused ↦ rw refused (
              record { opened = omega (arith, zero); closed = refl; others = refl; handle = refl },
              refl,
            )
          ])
        ]

    -- The metadata; no descriptor changes.
    abbrev pub MetadataRead : Unit {0} → State → Type 0
    MetadataRead _ t =
        IsStep s t
        × (t.afu.fd ≡ s.afu.fd)
        × (t.afu.global_mmio_fd ≡ s.afu.global_mmio_fd)
        × (t.afu.epoll_fd ≡ s.afu.epoll_fd)

    pub read_metadata-Step : Ends MetadataRead DeviceKept (read_metadata s)
    unfolding read_metadata opens closes
    read_metadata-Step = elim (Option-cases (k.get_metadata s.log s.afu.fd)) [
      | inl e ↦
          simp e
            (record { opened = omega arith; closed = refl; others = refl; handle = refl }, refl)
      | inr (m, e) ↦ simp e (
        record { opened = omega arith; closed = refl; others = refl; handle = refl },
        refl,
        refl,
        refl,
      )
    ]
