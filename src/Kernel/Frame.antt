-- ===== src/Kernel/Frame.antt =====
-- Relations between the states before and after a call that hold however it ends, unless it has a
-- fault.
use libocxl.Types.{OcxlErr, State}
use libocxl.Kernel.Monad.{
  Outcome, done, failed, fault, Cmd, and_then, cleanup, ◌>>=◌, on_error, Ends,
}

-- The state in which the run ends has the property.
abbrev pub After : {A : Type 0} → (State → Type 0) → Outcome A → Type 0
After P (done a t) = P t
After P (failed e t) = P t
After P fault = Unit

pub After-imp :
    {A : Type 0} (P Q : State → Type 0) (o : Outcome A)
    → ((t : State) → P t → Q t)
    → After P o
    → After Q o
After-imp P Q (done a t) f h = f t h
After-imp P Q (failed e t) f h = f t h
After-imp P Q fault f h = tt

pub Ends-After :
    {A : Type 0} (P : A → State → Type 0) (Q : OcxlErr → State → Type 0) (R : State → Type 0)
    (o : Outcome A)
    → Ends P Q o
    → After R o
    → Ends (λ a t. P a t × R t) (λ e t. Q e t × R t) o
Ends-After P Q R (done a t) h k = (h, k)
Ends-After P Q R (failed e t) h k = (h, k)
Ends-After P Q R fault h k = h

module _ (R : State → State → Type 0) (R-trans : (s t u : State) → R s t → R t u → R s u) where
  -- However the command ends, it relates the states before and after.
  abbrev pub Always : {A : Type 0} → Cmd A → Type 0
  Always m = (s : State) → After (R s) (m s)

  pub After-mono :
      {A : Type 0} (s t : State) (o : Outcome A) → R s t → After (R t) o → After (R s) o
  After-mono s t (done a u) h k = R-trans s t u h k
  After-mono s t (failed e u) h k = R-trans s t u h k
  After-mono s t fault h k = tt

  After-and_then :
      {A B : Type 0} (s : State) (o : Outcome A) (f : A → Cmd B)
      → After (R s) o
      → ((a : A) → Always (f a))
      → After (R s) (and_then o f)
  After-and_then s (done a t) f h k = After-mono s t (f a t) h (k a t)
  After-and_then s (failed e t) f h k = h
  After-and_then s fault f h k = tt

  After-cleanup :
      {A : Type 0} (s : State) (o : Outcome A) (f : OcxlErr → Cmd A)
      → After (R s) o
      → ((e : OcxlErr) → Always (f e))
      → After (R s) (cleanup o f)
  After-cleanup s (done a t) f h k = h
  After-cleanup s (failed e t) f h k = After-mono s t (f e t) h (k e t)
  After-cleanup s fault f h k = tt

  pub Always-bind :
      {A B : Type 0} (m : Cmd A) (f : A → Cmd B)
      → Always m
      → ((a : A) → Always (f a))
      → Always (m >>= f)
  Always-bind m f h k s = After-and_then s (m s) f (h s) k

  pub Always-on_error :
      {A : Type 0} (m : Cmd A) (f : OcxlErr → Cmd A)
      → Always m
      → ((e : OcxlErr) → Always (f e))
      → Always (on_error m f)
  Always-on_error m f h k s = After-cleanup s (m s) f (h s) k

-- If the run ends with a value, it has the property.
abbrev pub Returns : {A : Type 0} → (A → State → Type 0) → Outcome A → Type 0
Returns P (done a t) = P a t
Returns P (failed e t) = Unit
Returns P fault = Unit

pub Ends-Returns :
    {A : Type 0} (P : A → State → Type 0) (Q : OcxlErr → State → Type 0) (R : A → State → Type 0)
    (o : Outcome A)
    → Ends P Q o
    → Returns R o
    → Ends (λ a t. P a t × R a t) Q o
Ends-Returns P Q R (done a t) h k = (h, k)
Ends-Returns P Q R (failed e t) h k = h
Ends-Returns P Q R fault h k = h

pub After-Returns :
    {A : Type 0} (P : State → Type 0) (R : A → State → Type 0) (o : Outcome A)
    → ((a : A) (t : State) → P t → R a t)
    → After P o
    → Returns R o
After-Returns P R (done a t) f h = f a t h
After-Returns P R (failed e t) f h = tt
After-Returns P R fault f h = tt
