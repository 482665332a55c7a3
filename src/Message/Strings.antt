-- ===== src/Message/Strings.antt =====
-- The text of an error code.
use Prim.Native.String.{String, compare}
use Prim.Native.Nat.{Ordering}
use libocxl.Base.{◌≡◌, ◌≢◌, refl, ap, ◌↔◌}
use libocxl.Types.{OcxlErr}
use libocxl.Message.{ocxl_err_to_string}

-- A text that does not compare as equal is another.
differs : (t : String) → t ≡ "Unknown error" → compare t "Unknown error" ≢ Ordering.eq → ⊥
differs t h ne = ne (ap (λ x. compare x "Unknown error") h)

only_no_dev : (e : OcxlErr) → ocxl_err_to_string e ≡ "Unknown error" → e ≡ OcxlErr.no_dev
unfolding ocxl_err_to_string
only_no_dev OcxlErr.ok h = absurd (differs _ h (λ e. cc))
only_no_dev OcxlErr.no_mem h = absurd (differs _ h (λ e. cc))
only_no_dev OcxlErr.no_dev h = refl
only_no_dev OcxlErr.no_context h = absurd (differs _ h (λ e. cc))
only_no_dev OcxlErr.no_irq h = absurd (differs _ h (λ e. cc))
only_no_dev OcxlErr.internal_error h = absurd (differs _ h (λ e. cc))
only_no_dev OcxlErr.already_done h = absurd (differs _ h (λ e. cc))
only_no_dev OcxlErr.out_of_bounds h = absurd (differs _ h (λ e. cc))
only_no_dev OcxlErr.no_more_contexts h = absurd (differs _ h (λ e. cc))
only_no_dev OcxlErr.invalid_args h = absurd (differs _ h (λ e. cc))

-- Of the error codes with a name, OCXL_NO_DEV and no other has the text for unknown codes.
err_to_string-unknown :
    (e : OcxlErr) → (ocxl_err_to_string e ≡ "Unknown error") ↔ (e ≡ OcxlErr.no_dev)
unfolding ocxl_err_to_string
err_to_string-unknown e = (only_no_dev e, λ h. ap ocxl_err_to_string h)
