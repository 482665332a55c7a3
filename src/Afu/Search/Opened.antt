-- ===== src/Afu/Search/Opened.antt =====
-- Opening the first device that has a context left.
use Prim.Native.String.{String}
use mathlib.Core.Path.{subst}
use libocxl.Base.{
  ℕ, ◌+◌, ◌≡◌, ◌≢◌, refl, sym, ap, ◌∙◌, false, Option, inl, inr, List, [], ◌∷◌, arith, ◌==◌,
  Bool-cases,
}
use libocxl.Base.Int.{ℤ, is_neg}
use libocxl.Types.{OcxlErr, OcxlAfu, GlobAnswer, Pattern, State, Event}
use libocxl.Kernel.{Kernel, Outcome, done, failed, fault, Ends, Ends-bind, Ends-mono, Ends-cleanup}
use libocxl.Afu.Ledger.{opens, closes}
use libocxl.Afu.Open.{afu_alloc, afu_init}
use libocxl.Afu.Open.Steps.{held}
use libocxl.Afu.Open.Opened.{IsFresh, Opened}
use libocxl.Afu.Close.Stages.{IsSound}
use libocxl.Afu.Close.Failed.{IsEmpty, Balanced, nothing_held, still-IsSound, open_found-Balanced}
use libocxl.Afu.Search.{
  device_dir, get_afu_by_path, ocxl_afu_open_from_dev, try_next, open_first, open_found_paths,
  ocxl_afu_open_specific, libocxl_init,
}
use libocxl.Afu.Search.Located.{IsIdle, IsIdle-trans, Named, NotFound, KeepsEntries, look_up-Named}

module _ (n : ℕ) where
  -- An AFU that has been found, and was not open before.
  pub record IsReady (s : State) (h : ℕ) (t : State) : Type 0 where
    pub fresh : IsFresh t.afu
    pub sound : IsSound t.afu
    pub empty : IsEmpty t.afu
    pub idle : IsIdle n s t
    pub handle : t.afu_h ≡ h
    pub real : h ≢ 0

  abbrev pub Missing : State → OcxlErr → State → Type 0
  Missing s e t = IsIdle n s t

  -- The AFU is open, its tables are in order, and every descriptor that was opened since `s` has been
  -- closed or is one of its three.
  pub record IsUsable (s : State) (h : ℕ) (t : State) : Type 0 where
    pub handle : t.afu_h ≡ h
    pub real : h ≢ 0
    pub sound : IsSound t.afu
    pub fd : is_neg t.afu.fd ≡ false
    pub global_mmio_fd : is_neg t.afu.global_mmio_fd ≡ false
    pub epoll_fd : is_neg t.afu.epoll_fd ≡ false
    pub balance : opens n t.log + closes n s.log ≡ held n t.afu + (opens n s.log + closes n t.log)

  IsUsable-after :
      (s t u : State) (h : ℕ)
      → opens n t.log + closes n s.log ≡ opens n s.log + closes n t.log
      → IsUsable t h u
      → IsUsable s h u
  IsUsable-after s t u h e o = record {
    handle = o.handle;
    real = o.real;
    sound = o.sound;
    fd = o.fd;
    global_mmio_fd = o.global_mmio_fd;
    epoll_fd = o.epoll_fd;
    balance = omega (arith, e, o.balance);
  }

  try_next-Ends :
      (P : ℕ → State → Type 0) (Q : OcxlErr → State → Type 0) (o : Outcome ℕ)
      (rest : OcxlErr → State → Outcome ℕ)
      → Ends P Q o
      → ((t : State) → Q OcxlErr.no_more_contexts t → Ends P Q (rest OcxlErr.no_more_contexts t))
      → Ends P Q (try_next o rest)
  unfolding try_next
  try_next-Ends P Q (done a t) rest h f = h
  try_next-Ends P Q fault rest h f = h
  try_next-Ends P Q (failed OcxlErr.ok t) rest h f = h
  try_next-Ends P Q (failed OcxlErr.no_mem t) rest h f = h
  try_next-Ends P Q (failed OcxlErr.no_dev t) rest h f = h
  try_next-Ends P Q (failed OcxlErr.no_context t) rest h f = h
  try_next-Ends P Q (failed OcxlErr.no_irq t) rest h f = h
  try_next-Ends P Q (failed OcxlErr.internal_error t) rest h f = h
  try_next-Ends P Q (failed OcxlErr.already_done t) rest h f = h
  try_next-Ends P Q (failed OcxlErr.out_of_bounds t) rest h f = h
  try_next-Ends P Q (failed OcxlErr.no_more_contexts t) rest h f = f t h
  try_next-Ends P Q (failed OcxlErr.invalid_args t) rest h f = h

  module _ ⦃k : Kernel⦄ (entries : KeepsEntries) where
    get_afu_by_path-IsReady :
        (path : String) (s : State) → Ends (IsReady s) (Missing s) (get_afu_by_path path s)
    unfolding get_afu_by_path afu_alloc afu_init opens closes
    get_afu_by_path-IsReady path s =
        let block = k.malloc s.log k.sizeof_afu in
        let t = record s {
          afu_h = block;
          afu = afu_init s.globals s.afu;
          log = Event.malloc k.sizeof_afu block ∷ s.log;
        } in
        let idle : IsIdle n s t = record { balance = refl } in
        elim (Bool-cases (block == 0)) [
          | inl null ↦ rw null (record { balance = refl })
          | inr got ↦ rw got (
              Ends-bind (λ _ u. Named n t u) (Missing s) (IsReady s) (Missing s) _ _
                (Ends-cleanup (λ _ u. Named n t u) (NotFound n t) (Missing s) _ _
                  (look_up-Named n entries path t) (λ e u (_, j). record { balance = j.balance }))
                (λ _ u h. record {
                  fresh = record {
                    fd = ap (λ (a : OcxlAfu). a.fd) h.others;
                    global_mmio_fd = ap (λ (a : OcxlAfu). a.global_mmio_fd) h.others;
                    epoll_fd = ap (λ (a : OcxlAfu). a.epoll_fd) h.others;
                    device_path = h.device_path;
                    sysfs_path = h.sysfs_path;
                  };
                  sound =
                      subst (λ x. IsSound x) (sym h.others)
                        (record {
                          mmios = record {
                            size = refl;
                            used = tt;
                            room = omega arith;
                            bound = omega arith;
                          };
                          irqs = record {
                            table = record {
                              size = refl;
                              used = tt;
                              room = omega arith;
                              bound = omega arith;
                            };
                            allocated = λ e. refl;
                            closable = λ j q e x. cc;
                          };
                        });
                  empty = record {
                    no_areas = ap (λ (a : OcxlAfu). a.mmio_count) h.others;
                    no_irqs = ap (λ (a : OcxlAfu). a.irqs.base) h.others;
                  };
                  idle = IsIdle-trans n s t u idle h.idle;
                  handle = h.handle;
                  real = λ e. ground arith;
                })
                (λ e u j. j))
        ]

    open_from_dev-IsUsable :
        (path : String) (s : State)
        → Ends (IsUsable s) (Balanced n s) (ocxl_afu_open_from_dev path s)
    unfolding ocxl_afu_open_from_dev
    open_from_dev-IsUsable path s =
        let t = record s { globals = libocxl_init s.globals } in
        Ends-bind (IsReady t) (Missing t) (IsUsable s) (Balanced n s) _ _
          (get_afu_by_path-IsReady path t)
          (λ h u r.
            Ends-bind (Opened n u) (Balanced n u) (IsUsable s) (Balanced n s) _ _
              (open_found-Balanced n u r.fresh r.sound r.empty)
              (λ _ w (step, fd, global, epoll).
                let none_held = nothing_held n u r.fresh r.sound r.empty in
                record {
                  handle = step.handle ∙ r.handle;
                  real = r.real;
                  sound = still-IsSound n u r.fresh r.sound r.empty w step;
                  fd = fd;
                  global_mmio_fd = global;
                  epoll_fd = epoll;
                  balance = omega (arith, step.opened, step.closed, none_held, r.idle.balance);
                })
              (λ e w b. omega (arith, b, r.idle.balance)))
          (λ e u i. omega (arith, i.balance))

    open_first-IsUsable :
        (ret : OcxlErr) (paths : List String) (s : State)
        → Ends (IsUsable s) (Balanced n s) (open_first ret paths s)
    unfolding open_first
    open_first-IsUsable ret [] s = omega arith
    open_first-IsUsable ret (path ∷ paths) s =
        try_next-Ends (IsUsable s) (Balanced n s) _ (λ rc. open_first rc paths)
          (open_from_dev-IsUsable path s)
          (λ t b.
            Ends-mono (IsUsable t) (Balanced n t) (IsUsable s) (Balanced n s) _
              (open_first-IsUsable OcxlErr.no_more_contexts paths t)
              (λ h u o. IsUsable-after s t u h b o) (λ e u c. omega (arith, b, c)))

    open_found_paths-IsUsable :
        (answer : GlobAnswer) (s : State)
        → Ends (IsUsable s) (Balanced n s) (open_found_paths answer s)
    unfolding open_found_paths
    open_found_paths-IsUsable GlobAnswer.no_space s = omega arith
    open_found_paths-IsUsable GlobAnswer.no_match s = omega arith
    open_found_paths-IsUsable GlobAnswer.aborted s = omega arith
    open_found_paths-IsUsable (GlobAnswer.paths ps) s =
        open_first-IsUsable OcxlErr.internal_error ps s

    -- Opening an AFU by its name, whatever the state of the library, where the entry of a directory
    -- can still be read after `closedir`, has no fault. If it succeeds, the handle is the address of
    -- an AFU whose three descriptors are no negative numbers and whose tables are in order, and every
    -- descriptor that was opened on the way, of a directory or of a device that had no context left
    -- too, was closed or is one of these three; if it fails, every descriptor was closed as often as
    -- it was opened.
    pub open_specific-IsUsable :
        (name : String) (physical_function : Option String) (afu_index : Option ℤ) (s : State)
        → Ends
            (IsUsable s)
            (Balanced n s)
            (ocxl_afu_open_specific name physical_function afu_index s)
    unfolding ocxl_afu_open_specific opens closes
    open_specific-IsUsable name physical_function afu_index s =
        let g = libocxl_init s.globals in
        let pattern : Pattern = record {
          dir = device_dir g;
          name = name;
          physical_function = physical_function;
          afu_index = afu_index;
        } in
        let answer = k.glob s.log pattern in
        let t = record s { globals = g; log = Event.glob pattern answer ∷ s.log } in
        Ends-bind (IsUsable t) (Balanced n t) (IsUsable s) (Balanced n s) _ _
          (Ends-cleanup (IsUsable t) (Balanced n t) (Balanced n t) _ _
            (open_found_paths-IsUsable answer t) (λ e u b. b))
          (λ h u o. record {
            handle = o.handle;
            real = o.real;
            sound = o.sound;
            fd = o.fd;
            global_mmio_fd = o.global_mmio_fd;
            epoll_fd = o.epoll_fd;
            balance = o.balance;
          })
          (λ e u b. b)
