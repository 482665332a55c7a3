-- ===== src/Afu/Search/Located.antt =====
-- What finding a device leaves: no descriptor that is still open, and an AFU ready to open.
use Prim.Native.String.{String, len}
use libocxl.Base.{
  ℕ, ◌+◌, ◌≡◌, ◌≢◌, arith, refl, ap, ◌∙◌, Bool, true, false, Option, none, some, inl, inr, List, [],
  ◌∷◌, ltb, ◌==◌, Bool-cases, Option-cases, if◌then◌else◌,
}
use libocxl.Types.{OcxlErr, OcxlAfu, State, Event, History}
use libocxl.Base.Int.{ℤ}
use libocxl.Kernel.{Kernel, Cmd, pure, Ends, Ends-bind, Ends-mono, Ends-cleanup}
use libocxl.Irq.Release.{Never}
use libocxl.Mmio.Map.{path_text}
use libocxl.Afu.Ledger.{is_fd, is_dirfd, opens, closes}
use libocxl.Afu.Search.{
  split_dot, device_dir, sysfs_dir, device_matches, find_device, copy_path, name_afu,
  populate_metadata, look_up, afu_name_max, read_entry, name_found,
}

-- An entry of a directory can still be read after `closedir`, whatever is there then.
abbrev pub KeepsEntries : ⦃k : Kernel⦄ → Type 0
KeepsEntries ⦃k⦄ =
    (l : History) (name : String) → (name' : String) × (k.closed_entry l name ≡ some name')

module _ (n : ℕ) where
  -- The descriptor was closed as often as it was opened.
  pub record IsIdle (s t : State) : Type 0 where
    pub balance : opens n t.log + closes n s.log ≡ opens n s.log + closes n t.log

  pub IsIdle-trans : (s t u : State) → IsIdle s t → IsIdle t u → IsIdle s u
  IsIdle-trans s t u h k = record { balance = omega (arith, h.balance, k.balance) }

  -- The AFU has been named, and nothing else of it has changed.
  pub record Named (s t : State) : Type 0 where
    pub idle : IsIdle s t
    pub handle : t.afu_h ≡ s.afu_h
    pub device_path : path_text t.afu.device_path ≢ none
    pub sysfs_path : path_text t.afu.sysfs_path ≢ none
    pub others : t.afu ≡ record s.afu {
      identifier = t.afu.identifier;
      device_path = t.afu.device_path;
      sysfs_path = t.afu.sysfs_path;
    }

  abbrev pub NotFound : State → OcxlErr → State → Type 0
  NotFound s e t = (e ≡ OcxlErr.no_dev) × IsIdle s t

  -- What is still to be closed: a directory in which a device was found.
  abbrev owed : ℤ → Option String → ℕ
  owed fd none = 0
  owed fd (some name) = is_fd n fd

  -- The AFU was only looked at, while the directory was open at first.
  abbrev Looked : ℤ → State → Option String → State → Type 0
  Looked fd s found t =
      (opens n t.log ≡ opens n s.log)
      × (closes n t.log + owed fd found ≡ closes n s.log + is_fd n fd)
      × (t.afu ≡ s.afu)
      × (t.afu_h ≡ s.afu_h)

  chosen :
      (fd : ℤ) (b : Bool) (name : String) (rest : Cmd (Option String)) (s t : State)
      → opens n t.log ≡ opens n s.log
      → closes n t.log ≡ closes n s.log
      → t.afu ≡ s.afu
      → t.afu_h ≡ s.afu_h
      → Ends (Looked fd t) Never (rest t)
      → Ends (Looked fd s) Never ((if b then pure (some name) else rest) t)
  chosen fd true name rest s t o c a m h = (o, ap (λ x. x + is_fd n fd) c, a, m)
  chosen fd false name rest s t o c a m h =
      Ends-mono (Looked fd t) Never (Looked fd s) Never _ h
        (λ r u (o', c', b, m'). (o' ∙ o, omega (arith, c, c'), b ∙ a, m' ∙ m)) (λ e u x. x)

  Named-after :
      (s t u : State) → IsIdle s t → t.afu ≡ s.afu → t.afu_h ≡ s.afu_h → Named t u → Named s u
  Named-after s t u i e m h = record {
    idle = IsIdle-trans s t u i h.idle;
    handle = h.handle ∙ m;
    device_path = h.device_path;
    sysfs_path = h.sysfs_path;
    others =
        h.others
        ∙ ap
            (λ (x : OcxlAfu). record x {
              identifier = u.afu.identifier;
              device_path = u.afu.device_path;
              sysfs_path = u.afu.sysfs_path;
            })
            e;
  }

  module _ ⦃k : Kernel⦄ where
    find_device-Looked :
        (fd : ℤ) (dev : ℕ) (names : List String) (s : State)
        → Ends (Looked fd s) Never (find_device fd dev names s)
    unfolding find_device device_matches opens closes
    find_device-Looked fd dev [] s = (refl, omega arith, refl, refl)
    find_device-Looked fd dev (name ∷ names) s =
        let t = record s { log = Event.fstatat fd name (k.fstatat s.log fd name) ∷ s.log } in
        chosen fd _ name (find_device fd dev names) s t refl refl refl refl
          (find_device-Looked fd dev names t)

    name_afu-Named :
        (name : String) (s : State) → Ends (λ _ t. Named s t) (NotFound s) (name_afu name s)
    unfolding name_afu copy_path opens closes
    name_afu-Named name s = elim (Option-cases (split_dot name)) [
      | inl e ↦ rw e (refl, record { balance = refl })
      | inr (parts, e) ↦ elim (Bool-cases (ltb afu_name_max (len parts.0))) [
        | inl long ↦ rw (e, long) (refl, record { balance = refl })
        | inr short ↦ elim (Option-cases (k.sscanf_index parts.1)) [
          | inl bad ↦ rw (e, short, bad) (refl, record { balance = refl })
          | inr (index, good) ↦
              let m = len (device_dir s.globals) + 1 + len name + 1 in
              let block = k.malloc s.log m in
              let l = Event.malloc m block ∷ s.log in
              let m' = len (sysfs_dir s.globals) + 1 + len name + 1 in
              elim (Bool-cases (block == 0)) [
                | inl null ↦ rw (e, short, good, null) (refl, record { balance = refl })
                | inr got ↦ elim (Bool-cases (k.malloc l m' == 0)) [
                  | inl null ↦ rw (e, short, good, got, null) (refl, record { balance = refl })
                  | inr got' ↦
                      rw (e, short, good, got, got')
                        (record {
                          idle = record { balance = refl };
                          handle = refl;
                          device_path = λ e. cc;
                          sysfs_path = λ e. cc;
                          others = refl;
                        })
                ]
              ]
        ]
      ]
    ]

    module _ (entries : KeepsEntries) where
      -- After the loop, with the directory open if it found a device.
      located :
          (fd : ℤ) (found : Option String) (s u : State)
          → opens n u.log ≡ is_fd n fd + opens n s.log
          → closes n u.log + owed fd found ≡ closes n s.log + is_fd n fd
          → u.afu ≡ s.afu
          → u.afu_h ≡ s.afu_h
          → Ends (λ _ w. Named s w) (NotFound s) (name_found fd found u)
      unfolding name_found read_entry opens closes
      located fd none s u o c a m = (refl, record { balance = omega (arith, o, c) })
      located fd (some name) s u o c a m =
          let w = record u { log = Event.closedir fd ∷ u.log } in
          let idle : IsIdle s w = record { balance = omega (arith, o, c) } in
          let (name', e) = entries w.log name in
          rw e (
            Ends-mono (λ _ x. Named w x) (NotFound w) (λ _ x. Named s x) (NotFound s) _
              (name_afu-Named name' w) (λ _ x h. Named-after s w x idle a m h)
              (λ x y (c', j). (c', IsIdle-trans s w y idle j)))

      populate_metadata-Named :
          (dev : ℕ) (s : State) → Ends (λ _ t. Named s t) (NotFound s) (populate_metadata dev s)
      unfolding populate_metadata opens closes is_dirfd
      populate_metadata-Named dev s =
          let dir = device_dir s.globals in
          elim (Option-cases (k.opendir s.log dir)) [
            | inl e ↦ rw e (refl, record { balance = omega arith })
            | inr ((fd, names), e) ↦
                let t = record s { log = Event.opendir dir (some (fd, names)) ∷ s.log } in
                rw e (
                  Ends-bind (Looked fd t) Never (λ _ u. Named s u) (NotFound s) _ _
                    (find_device-Looked fd dev names t)
                    (λ found u (o, c, a, m). located fd found s u o c a m) (λ x u h. absurd h))
          ]

      -- Looking up a device by its path, where an entry can still be read after `closedir`, has no
      -- fault, and closes every descriptor as often as it opens it; if it succeeds, the AFU has its
      -- two paths and its identifier and is otherwise as it was.
      pub look_up-Named :
          (path : String) (s : State) → Ends (λ _ t. Named s t) (NotFound s) (look_up path s)
      unfolding look_up opens closes
      look_up-Named path s = elim (Option-cases (k.stat s.log path)) [
        | inl e ↦ rw e (refl, record { balance = refl })
        | inr (dev, e) ↦
            let t = record s { log = Event.stat path (some dev) ∷ s.log } in
            let idle : IsIdle s t = record { balance = refl } in
            rw e (
              Ends-cleanup (λ _ u. Named s u) (NotFound s) (NotFound s) _ _
                (Ends-mono (λ _ u. Named t u) (NotFound t) (λ _ u. Named s u) (NotFound s) _
                  (populate_metadata-Named dev t) (λ _ u h. Named-after s t u idle refl refl h)
                  (λ x u (c, j). (c, IsIdle-trans s t u idle j)))
                (λ x u (c, j). (refl, record { balance = j.balance })))
      ]
