-- ===== src/Kernel/Monad.antt =====
-- A call of the library: it ends with a value, it ends early with an error code, or it does what C
-- leaves undefined (`fault`), such as an access outside a buffer.
use libocxl.Base.{◌≡◌, refl, Bool, true, false, Option, none, some}
use libocxl.Types.{OcxlErr, State, OcxlAfu}

pub data Outcome (A : Type 0) : Type 0 where
  done : A → State → Outcome A
  failed : OcxlErr → State → Outcome A
  fault : Outcome A

abbrev pub Cmd : Type 0 → Type 0
Cmd A = State → Outcome A

module _ {A : Type 0} where
  abbrev pub pure : A → Cmd A
  pure a s = done a s

  abbrev pub undefined : Cmd A
  undefined s = fault

  abbrev pub return_err : OcxlErr → Cmd A
  return_err e s = failed e s

  abbrev pub gets : (State → A) → Cmd A
  gets f s = done (f s) s

  -- A value that an access of memory yields, or the fault of that access.
  abbrev pub or_fault : Option A → Cmd A
  or_fault none s = fault
  or_fault (some a) s = done a s

  -- `goto` an error exit that cleans up and returns the same code.
  abbrev pub cleanup : Outcome A → (OcxlErr → Cmd A) → Outcome A
  cleanup (done a s) f = done a s
  cleanup (failed e s) f = f e s
  cleanup fault f = fault

  abbrev pub on_error : Cmd A → (OcxlErr → Cmd A) → Cmd A
  on_error m f s = cleanup (m s) f

  -- The postcondition of a run that has no fault, by how it ends.
  abbrev pub Ends : (A → State → Type 0) → (OcxlErr → State → Type 0) → Outcome A → Type 0
  Ends P Q (done a s) = P a s
  Ends P Q (failed e s) = Q e s
  Ends P Q fault = ⊥

module _ {A B : Type 0} where
  abbrev pub and_then : Outcome A → (A → Cmd B) → Outcome B
  and_then (done a s) f = f a s
  and_then (failed e s) f = failed e s
  and_then fault f = fault

  infixl 5 ◌>>=◌
  abbrev pub ◌>>=◌ : Cmd A → (A → Cmd B) → Cmd B
  ◌>>=◌ m f s = and_then (m s) f

infixl 5 ◌>>◌
abbrev pub ◌>>◌ : {B : Type 0} → Cmd (Unit {0}) → Cmd B → Cmd B
m >> k = m >>= λ _. k

abbrev pub modify_afu : (OcxlAfu → OcxlAfu) → Cmd (Unit {0})
modify_afu f s = done tt (record s { afu = f s.afu })

-- `if (c) m`
abbrev pub when : Bool → Cmd (Unit {0}) → Cmd (Unit {0})
when true m = m
when false m = pure tt

module _ {A : Type 0} (P : A → State → Type 0) (Q : OcxlErr → State → Type 0) where
  pub Ends-bind :
      {B : Type 0} (P' : B → State → Type 0) (Q' : OcxlErr → State → Type 0) (o : Outcome A)
      (f : A → Cmd B)
      → Ends P Q o
      → ((a : A) (s : State) → P a s → Ends P' Q' (f a s))
      → ((e : OcxlErr) (s : State) → Q e s → Q' e s)
      → Ends P' Q' (and_then o f)
  Ends-bind P' Q' (done a s) f h next keep = next a s h
  Ends-bind P' Q' (failed e s) f h next keep = keep e s h
  Ends-bind P' Q' fault f h next keep = h

  pub Ends-mono :
      (P' : A → State → Type 0) (Q' : OcxlErr → State → Type 0) (o : Outcome A)
      → Ends P Q o
      → ((a : A) (s : State) → P a s → P' a s)
      → ((e : OcxlErr) (s : State) → Q e s → Q' e s)
      → Ends P' Q' o
  Ends-mono P' Q' (done a s) h f g = f a s h
  Ends-mono P' Q' (failed e s) h f g = g e s h
  Ends-mono P' Q' fault h f g = h

  pub Ends-cleanup :
      (Q' : OcxlErr → State → Type 0) (o : Outcome A) (f : OcxlErr → Cmd A)
      → Ends P Q o
      → ((e : OcxlErr) (s : State) → Q e s → Ends P Q' (f e s))
      → Ends P Q' (cleanup o f)
  Ends-cleanup Q' (done a s) f h g = h
  Ends-cleanup Q' (failed e s) f h g = g e s h
  Ends-cleanup Q' fault f h g = h

  -- Two postconditions of the same run.
  pub Ends-both :
      (P' : A → State → Type 0) (Q' : OcxlErr → State → Type 0) (o : Outcome A)
      → Ends P Q o
      → Ends P' Q' o
      → Ends (λ a s. P a s × P' a s) (λ e s. Q e s × Q' e s) o
  Ends-both P' Q' (done a s) h h' = (h, h')
  Ends-both P' Q' (failed e s) h h' = (h, h')
  Ends-both P' Q' fault h h' = h

-- A run that cannot fail ends with a value.
pub Ends-done :
    {A : Type 0} (P : A → State → Type 0) (o : Outcome A)
    → Ends P (λ _ _. ⊥) o
    → (a : A) × (s : State) × (o ≡ done a s) × P a s
Ends-done P (done a s) h = (a, s, refl, h)
Ends-done P (failed e s) h = absurd h
Ends-done P fault h = absurd h
