-- ===== src/Afu/Open/Attach.antt =====
-- `ocxl_afu_attach` after `ocxl_afu_set_ppc64_amr`.
use libocxl.Base.{ℕ, ◌≡◌, refl, ◌⊎◌, true, false, inl, inr, ◌∷◌, Bool-cases}
use libocxl.Base.Int.{is_minus_one}
use libocxl.Types.{OcxlErr, State, Event}
use libocxl.Kernel.{Kernel, Ends, ◌>>◌}
use libocxl.Afu.Open.{ocxl_afu_set_ppc64_amr, ocxl_afu_attach}

module _ ⦃k : Kernel⦄ (amr flags : ℕ) (s : State) where
  -- Setting the AMR and then attaching has no fault. If it succeeds, the AFU was open, its device
  -- was attached with that AMR, and the AFU now records both; if it fails, the AFU records the AMR
  -- and is otherwise as it was, and either it was closed and no call was made, or the kernel refused
  -- that one call.
  pub set_amr-attach :
      Ends
        (λ _ t.
          (is_minus_one s.afu.fd ≡ false)
          × (t.afu ≡ record s.afu { attached = true; ppc64_amr = amr })
          × (t.log ≡ Event.attach s.afu.fd amr true ∷ s.log))
        (λ e t.
          (t.afu ≡ record s.afu { ppc64_amr = amr })
          × (((e ≡ OcxlErr.no_context) × (is_minus_one s.afu.fd ≡ true) × (t.log ≡ s.log))
              ⊎ ((e ≡ OcxlErr.internal_error)
                  × (is_minus_one s.afu.fd ≡ false)
                  × (t.log ≡ Event.attach s.afu.fd amr false ∷ s.log))))
        ((ocxl_afu_set_ppc64_amr amr >> ocxl_afu_attach flags) s)
  unfolding ocxl_afu_set_ppc64_amr ocxl_afu_attach
  set_amr-attach = elim (Bool-cases (is_minus_one s.afu.fd)) [
    | inl closed ↦ rw closed (refl, inl (refl, refl, refl))
    | inr opened ↦ rw opened (elim (Bool-cases (k.attach s.log s.afu.fd amr)) [
      | inl taken ↦ rw taken (refl, refl, refl)
      | inr refused ↦ rw refused (refl, inr (refl, refl, refl))
    ])
  ]
