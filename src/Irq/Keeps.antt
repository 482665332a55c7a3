-- ===== src/Irq/Keeps.antt =====
-- The calls that allocating an interrupt makes: a relation between histories that each of them keeps
-- holds between the histories before and after, however the allocation ends.
use libocxl.Base.{
  ℕ, ◌*◌, ◌%◌, ◌^◌, Bool, true, false, not, none, some, inl, inr, ◌∷◌, ltb, ◌==◌, Bool-cases,
  Option-cases, get_elem?, length,
}
use libocxl.Base.Int.{is_neg, minus_one}
use libocxl.Types.{OcxlErr, EpollFdSource, OcxlIrq, State, Event, History}
use libocxl.Kernel.{
  Kernel, Cmd, After, Always-bind, After-mono, Always-on_error, when, on_error, mmap, munmap,
  close_fd, eventfd, ioctl_irq_free, ioctl_irq_set_fd, epoll_ctl_add, prot_write, map_failed,
}
use libocxl.Message.{fail_if, fail, errmsg}
use libocxl.Buffer.{next_count, grow_buffer}
use libocxl.Irq.{
  irq_in, get_irq, put_irq, update_irq, dealloc_page, dealloc_interrupt, dealloc_eventfd,
  irq_dealloc, open_eventfd, alloc_interrupt, bind_eventfd, map_page, watch_eventfd, acquire_irq,
  initial_irq, irq_allocate, grow_irqs, ocxl_irq_alloc, sizeof_irq, initial_irq_count,
}

-- The calls that an allocation makes.
abbrev pub IsOfIrq : Event → Type 0
IsOfIrq (Event.realloc block size answer) = Unit
IsOfIrq (Event.eventfd fd) = Unit
IsOfIrq (Event.irq_alloc fd answer) = Unit
IsOfIrq (Event.irq_set_fd fd offset efd ok) = Unit
IsOfIrq (Event.mmap size prot fd offset answer) = Unit
IsOfIrq (Event.epoll_add epoll_fd fd source ok) = Unit
IsOfIrq (Event.munmap addr size) = Unit
IsOfIrq (Event.close fd) = Unit
IsOfIrq (Event.irq_free fd offset ok) = Unit
IsOfIrq e = ⊥

module _ (P : History → History → Type 0) (same : (l : History) → P l l)
    (trans : (l m n : History) → P l m → P m n → P l n)
    (step : (l : History) (e : Event) → IsOfIrq e → P l (e ∷ l)) ⦃k : Kernel⦄ where
  -- The histories of the two states are so related.
  abbrev R : State → State → Type 0
  R s t = P s.log t.log

  R-trans : (s t u : State) → R s t → R t u → R s u
  R-trans s t u h k = trans s.log t.log u.log h k

  abbrev Keeps : {A : Type 0} → Cmd A → Type 0
  Keeps m = (s : State) → After (R s) (m s)

  fail_if-Keeps : (c : Bool) (e : OcxlErr) → Keeps (fail_if c e)
  fail_if-Keeps true e s = same s.log
  fail_if-Keeps false e s = same s.log

  get_irq-Keeps : (i : ℕ) → Keeps (get_irq i)
  get_irq-Keeps i s = elim (Option-cases (irq_in (get_elem? s.afu.irqs.cells i))) [
    | inl n ↦ rw n tt
    | inr (q, e) ↦ rw e (same s.log)
  ]

  put_irq-Keeps : (i : ℕ) (q : OcxlIrq) → Keeps (put_irq i q)
  unfolding put_irq
  put_irq-Keeps i q s = elim (Bool-cases (ltb i (length s.afu.irqs.cells))) [
    | inl inside ↦ rw inside (same s.log)
    | inr outside ↦ rw outside tt
  ]

  update_irq-Keeps : (i : ℕ) (f : OcxlIrq → OcxlIrq) → Keeps (update_irq i f)
  update_irq-Keeps i f =
      Always-bind R R-trans (get_irq i) _ (get_irq-Keeps i) (λ q. put_irq-Keeps i (f q))

  when-Keeps : (c : Bool) (m : Cmd (Unit {0})) → Keeps m → Keeps (when c m)
  when-Keeps true m h s = h s
  when-Keeps false m h s = same s.log

  dealloc_page-Keeps : (i : ℕ) (q : OcxlIrq) → Keeps (dealloc_page i q)
  unfolding dealloc_page
  dealloc_page-Keeps i q = when-Keeps (not (q.addr == 0)) _ (λ s.
      Always-bind R R-trans (munmap q.addr s.afu.page_size) _
        (λ t. step t.log (Event.munmap q.addr s.afu.page_size) tt)
        (λ ok.
          Always-bind R R-trans (when (not ok) (errmsg OcxlErr.internal_error)) _
            (when-Keeps (not ok) _ (λ t. same t.log))
            (λ _. update_irq-Keeps i (λ q. record q { addr = 0 })))
        s)

  dealloc_interrupt-Keeps : (i : ℕ) (q : OcxlIrq) → Keeps (dealloc_interrupt i q)
  unfolding dealloc_interrupt
  dealloc_interrupt-Keeps i q = when-Keeps (not (q.irq_offset == 0)) _ (λ s.
      Always-bind R R-trans (ioctl_irq_free s.afu.fd q.irq_offset) _
        (λ t. step t.log (Event.irq_free s.afu.fd q.irq_offset _) tt)
        (λ ok.
          Always-bind R R-trans (when (not ok) (errmsg OcxlErr.internal_error)) _
            (when-Keeps (not ok) _ (λ t. same t.log))
            (λ _. update_irq-Keeps i (λ q. record q { irq_offset = 0 })))
        s)

  dealloc_eventfd-Keeps : (i : ℕ) (q : OcxlIrq) → Keeps (dealloc_eventfd i q)
  unfolding dealloc_eventfd
  dealloc_eventfd-Keeps i q = when-Keeps (not (is_neg q.eventfd)) _ (
      Always-bind R R-trans (close_fd q.eventfd) _ (λ t. step t.log (Event.close q.eventfd) tt)
        (λ _. update_irq-Keeps i (λ q. record q { eventfd = minus_one })))

  irq_dealloc-Keeps : (i : ℕ) → Keeps (irq_dealloc i)
  unfolding irq_dealloc
  irq_dealloc-Keeps i = Always-bind R R-trans (get_irq i) _ (get_irq-Keeps i) (λ q.
      Always-bind R R-trans (dealloc_page i q) _ (dealloc_page-Keeps i q) (λ _.
        Always-bind R R-trans (get_irq i) _ (get_irq-Keeps i) (λ q.
          Always-bind R R-trans (dealloc_interrupt i q) _ (dealloc_interrupt-Keeps i q) (λ _.
            Always-bind R R-trans (get_irq i) _ (get_irq-Keeps i) (λ q.
              Always-bind R R-trans (dealloc_eventfd i q) _ (dealloc_eventfd-Keeps i q)
                (λ _. update_irq-Keeps i (λ q. record q { info = 0 })))))))

  open_eventfd-Keeps : (i : ℕ) → Keeps (open_eventfd i)
  unfolding open_eventfd
  open_eventfd-Keeps i =
      Always-bind R R-trans eventfd _ (λ t. step t.log (Event.eventfd _) tt)
        (λ fd.
          Always-bind R R-trans (fail_if (is_neg fd) OcxlErr.internal_error) _
            (fail_if-Keeps (is_neg fd) OcxlErr.internal_error)
            (λ _. update_irq-Keeps i (λ q. record q { eventfd = fd })))

  alloc_interrupt-Keeps : (i : ℕ) → Keeps (alloc_interrupt i)
  unfolding alloc_interrupt
  alloc_interrupt-Keeps i s =
      let answer = k.irq_alloc s.log s.afu.fd in
      let t = record s { log = Event.irq_alloc s.afu.fd answer ∷ s.log } in
      elim (Option-cases answer) [
        | inl n ↦ rw n (step s.log (Event.irq_alloc s.afu.fd none) tt)
        | inr (offset, e) ↦ rw e (
            After-mono R R-trans s
              (record s { log = Event.irq_alloc s.afu.fd (some offset) ∷ s.log }) _
              (step s.log (Event.irq_alloc s.afu.fd (some offset)) tt) (update_irq-Keeps i _ _))
      ]

  bind_eventfd-Keeps : (i : ℕ) → Keeps (bind_eventfd i)
  unfolding bind_eventfd
  bind_eventfd-Keeps i s =
      Always-bind R R-trans (get_irq i) _ (get_irq-Keeps i)
        (λ q.
          Always-bind R R-trans (ioctl_irq_set_fd s.afu.fd q.irq_offset q.eventfd) _
            (λ t. step t.log (Event.irq_set_fd s.afu.fd q.irq_offset q.eventfd _) tt)
            (λ ok. fail_if-Keeps (not ok) OcxlErr.internal_error))
        s

  map_page-Keeps : (i : ℕ) → Keeps (map_page i)
  unfolding map_page
  map_page-Keeps i s =
      Always-bind R R-trans (get_irq i) _ (get_irq-Keeps i)
        (λ q.
          Always-bind R R-trans (mmap s.afu.page_size prot_write s.afu.fd q.irq_offset) _
            (λ t. step t.log (Event.mmap s.afu.page_size prot_write s.afu.fd q.irq_offset _) tt)
            (λ addr.
              Always-bind R R-trans (update_irq i (λ q. record q { addr = addr }))
                (λ _. fail_if (addr == map_failed) OcxlErr.internal_error)
                (update_irq-Keeps i (λ q. record q { addr = addr }))
                (λ _. fail_if-Keeps (addr == map_failed) OcxlErr.internal_error)))
        s

  watch_eventfd-Keeps : (i : ℕ) → Keeps (watch_eventfd i)
  unfolding watch_eventfd
  watch_eventfd-Keeps i s =
      Always-bind R R-trans (get_irq i) _ (get_irq-Keeps i)
        (λ q.
          Always-bind R R-trans
            (epoll_ctl_add s.afu.epoll_fd q.eventfd (EpollFdSource.irq s.afu.irqs.base i)) _
            (λ t.
              step t.log
                (Event.epoll_add s.afu.epoll_fd q.eventfd (EpollFdSource.irq s.afu.irqs.base i) _)
                tt)
            (λ ok. fail_if-Keeps (not ok) OcxlErr.internal_error))
        s

  acquire_irq-Keeps : (i : ℕ) → Keeps (acquire_irq i)
  unfolding acquire_irq
  acquire_irq-Keeps i = Always-bind R R-trans (open_eventfd i) _ (open_eventfd-Keeps i) (λ _.
      Always-bind R R-trans (alloc_interrupt i) _ (alloc_interrupt-Keeps i) (λ _.
        Always-bind R R-trans (bind_eventfd i) _ (bind_eventfd-Keeps i) (λ _.
          Always-bind R R-trans (map_page i) _ (map_page-Keeps i) (λ _. watch_eventfd-Keeps i))))

  irq_allocate-Keeps : (i info : ℕ) → Keeps (irq_allocate i info)
  unfolding irq_allocate
  irq_allocate-Keeps i info s =
      Always-bind R R-trans (put_irq i (initial_irq s.afu i info)) _ (put_irq-Keeps i _)
        (λ _.
          Always-on_error R R-trans (acquire_irq i) _ (acquire_irq-Keeps i) (λ rc.
            Always-bind R R-trans (irq_dealloc i) _ (irq_dealloc-Keeps i) (λ _ t. same t.log)))
        s

  grow_irqs-Keeps : Keeps grow_irqs
  unfolding grow_irqs grow_buffer
  grow_irqs-Keeps s =
      let size = next_count s.afu.irq_max_count initial_irq_count * sizeof_irq % 2 ^ 64 in
      let block = k.realloc s.log s.afu.irqs.base size in
      elim (Bool-cases (block == 0)) [
        | inl e ↦ rw e (step s.log (Event.realloc s.afu.irqs.base size block) tt)
        | inr e ↦ rw e (step s.log (Event.realloc s.afu.irqs.base size block) tt)
      ]

  pub irq_alloc-Keeps : (info : ℕ) → Keeps (ocxl_irq_alloc info)
  unfolding ocxl_irq_alloc
  irq_alloc-Keeps info s =
      let full = s.afu.irq_count == s.afu.irq_max_count in
      Always-bind R R-trans (when full grow_irqs) _ (when-Keeps full _ grow_irqs-Keeps)
        (λ _ t.
          let i = t.afu.irq_count in
          Always-bind R R-trans (on_error (irq_allocate i info) (λ rc. fail rc)) _
            (Always-on_error R R-trans (irq_allocate i info) _ (irq_allocate-Keeps i info)
              (λ rc t. same t.log))
            (λ _.
              Always-bind R R-trans (update_irq i (λ q. record q { irq_number = i })) _
                (update_irq-Keeps i (λ q. record q { irq_number = i })) (λ _ t. same t.log))
            t)
        s
