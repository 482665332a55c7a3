-- ===== src/Message.antt =====
-- Error messages: `errmsg` of src/internal.c, and src/setup.c with the per-AFU switches of
-- src/afu.c. A message is the handler that is called and the error code; its text is left out.
pub mod Strings
use Prim.Native.String.{String}
use libocxl.Base.{ℕ, ◌/◌, ◌%◌, ◌==◌, Bool, true, false, List, ◌∷◌, if◌then◌else◌}
use libocxl.Types.{OcxlErr, State, Message, Handler, Globals, OcxlAfu}
use libocxl.Kernel.{Cmd, done, return_err}

-- `errmsg` with an AFU: the messages afterwards.
unfoldable pub afu_reported : State → OcxlErr → List Message
afu_reported s e =
    if s.afu.verbose_errors
    then record { handler = s.afu.error_handler; from_afu = true; error = e } ∷ s.messages
    else s.messages

-- `errmsg` without an AFU: the messages afterwards.
pub null_reported : State → OcxlErr → List Message
null_reported s e =
    if s.globals.verbose_errors
    then record { handler = s.globals.error_handler; from_afu = false; error = e } ∷ s.messages
    else s.messages

-- `errmsg(afu, error, …)`
abbrev pub errmsg : OcxlErr → Cmd (Unit {0})
errmsg e s = done tt (record s { messages = afu_reported s e })

-- `errmsg(NULL, error, …)`
abbrev pub errmsg_null : OcxlErr → Cmd (Unit {0})
errmsg_null e s = done tt (record s { messages = null_reported s e })

module _ {A : Type 0} where
  -- `errmsg(afu, rc, …); return rc;`
  abbrev pub fail : OcxlErr → Cmd A
  fail e s = return_err e (record s { messages = afu_reported s e })

  -- `errmsg(NULL, rc, …); return rc;`
  abbrev pub fail_null : OcxlErr → Cmd A
  fail_null e s = return_err e (record s { messages = null_reported s e })

-- `if (c) { errmsg(afu, rc, …); return rc; }`, and the same with no AFU.
abbrev pub fail_if : Bool → OcxlErr → Cmd (Unit {0})
fail_if c e s = if c then fail e s else done tt s

abbrev pub fail_null_if : Bool → OcxlErr → Cmd (Unit {0})
fail_null_if c e s = if c then fail_null e s else done tt s

-- `!!(sources & (1 << i))` for the two sources OCXL_ERRORS (bit 0) and OCXL_TRACING (bit 1).
abbrev errors_requested : ℕ → Bool
errors_requested sources = sources % 2 == 1

abbrev tracing_requested : ℕ → Bool
tracing_requested sources = sources / 2 % 2 == 1

pub ocxl_enable_messages : ℕ → Globals → Globals
ocxl_enable_messages sources g = record g {
  verbose_errors = errors_requested sources;
  tracing = tracing_requested sources;
}

pub ocxl_set_error_message_handler : Handler → Globals → Globals
ocxl_set_error_message_handler h g = record g { error_handler = h }

pub ocxl_afu_enable_messages : ℕ → OcxlAfu → OcxlAfu
ocxl_afu_enable_messages sources a = record a {
  verbose_errors = errors_requested sources;
  tracing = tracing_requested sources;
}

pub ocxl_afu_set_error_message_handler : Handler → OcxlAfu → OcxlAfu
ocxl_afu_set_error_message_handler h a = record a { error_handler = h }

pub ocxl_err_to_string : OcxlErr → String
ocxl_err_to_string OcxlErr.ok = "OK"
ocxl_err_to_string OcxlErr.no_mem = "No memory"
ocxl_err_to_string OcxlErr.no_context = "AFU context not available"
ocxl_err_to_string OcxlErr.no_irq = "AFU interrupt not available"
ocxl_err_to_string OcxlErr.internal_error = "Internal error"
ocxl_err_to_string OcxlErr.already_done = "Already done"
ocxl_err_to_string OcxlErr.out_of_bounds = "Out of bounds"
ocxl_err_to_string OcxlErr.no_more_contexts = "No more contexts"
ocxl_err_to_string OcxlErr.invalid_args = "Invalid arguments"
ocxl_err_to_string _ = "Unknown error"
