-- ===== src/Events/Thread.antt =====
-- `ocxl_afu_get_p9_thread_id` has no fault, and makes at most two calls, for the features of the AFU
-- and for the thread's identity: a relation between histories that they keep holds between the
-- histories before and after.
use libocxl.Base.{ℕ, ◌≡◌, inl, inr, Bool, true, false, Option, none, some, ◌∷◌, Option-cases}
use libocxl.Types.{State, Event, History}
use libocxl.Kernel.{Kernel, Ends}
use libocxl.Events.{ocxl_afu_get_p9_thread_id}

-- The two calls.
abbrev pub IsOfThread : Event → Type 0
IsOfThread (Event.get_features fd answer) = Unit
IsOfThread (Event.enable_p9_wait fd answer) = Unit
IsOfThread e = ⊥

module _ (P : History → History → Type 0) (trans : (l m n : History) → P l m → P m n → P l n)
    (step : (l : History) (e : Event) → IsOfThread e → P l (e ∷ l)) ⦃k : Kernel⦄ where
  abbrev pub Kept : State → Type 0
  Kept s = Ends (λ _ t. P s.log t.log) (λ _ t. P s.log t.log) (ocxl_afu_get_p9_thread_id s)

  -- The features were given.
  with_features : (s : State) (wait : Bool) → k.get_features s.log s.afu.fd ≡ some wait → Kept s
  unfolding ocxl_afu_get_p9_thread_id
  with_features s false e = rw e (step s.log (Event.get_features s.afu.fd (some false)) tt)
  with_features s true e =
      let asked = Event.get_features s.afu.fd (some true) in
      let called = λ (answer : Option ℕ).
        trans s.log (asked ∷ s.log) (Event.enable_p9_wait s.afu.fd answer ∷ (asked ∷ s.log))
          (step s.log asked tt) (step (asked ∷ s.log) (Event.enable_p9_wait s.afu.fd answer) tt) in
      elim (Option-cases (k.enable_p9_wait (asked ∷ s.log) s.afu.fd)) [
        | inl n ↦ rw (e, n) (called none)
        | inr (tid, f) ↦ rw (e, f) (called (some tid))
      ]

  pub get_p9_thread_id-Keeps : (s : State) → Kept s
  unfolding ocxl_afu_get_p9_thread_id
  get_p9_thread_id-Keeps s = elim (Option-cases (k.get_features s.log s.afu.fd)) [
    | inl n ↦ rw n (step s.log (Event.get_features s.afu.fd none) tt)
    | inr (wait, e) ↦ with_features s wait e
  ]
