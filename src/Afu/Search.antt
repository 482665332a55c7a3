-- ===== src/Afu/Search.antt =====
-- The search for a device: `libocxl_init` of src/internal.c, and `device_matches`,
-- `populate_metadata`, `get_afu_by_path`, `ocxl_afu_open_from_dev`, `ocxl_afu_open_specific` and
-- `ocxl_afu_open` of src/afu.c. The name of the device's entry is read after `closedir`: what is
-- there then, if it can still be read at all, is `closed_entry` of the kernel.
pub mod Init
pub mod Located
pub mod Opened
use Prim.Native.Char.{code}
use Prim.Native.String.{String, len, ◌++◌ as str_append}
use mathlib.Core.Option
use libocxl.Base.{
  ℕ, ◌+◌, Bool, true, false, ◌&&◌, ◌||◌, Option, none, some, List, [], ◌∷◌, ltb, ◌==◌,
  if◌then◌else◌,
}
use libocxl.Base.Int.{ℤ}
use libocxl.Types.{OcxlErr, OcxlAfu, OcxlIdentifier, Globals, State, GlobAnswer, Pattern}
use libocxl.Kernel.{
  Kernel, Outcome, done, failed, fault, Cmd, pure, gets, on_error, return_err, ◌>>=◌, ◌>>◌,
  modify_afu, malloc, free, opendir, closedir, fstatat, stat, glob, globfree, or_fault,
}
use libocxl.Message.{errmsg_null, fail_null}
use libocxl.Afu.Open.{afu_alloc}
use libocxl.Afu.Close.{open_found}

-- AFU_NAME_MAX
abbrev pub afu_name_max : ℕ
afu_name_max = 24

-- DEVICE_PATH and SYS_PATH.
abbrev pub device_dir : Globals → String
device_dir g = elim g.dev_path [ none ↦ "/dev/ocxl" | some path ↦ path ]

abbrev pub sysfs_dir : Globals → String
sysfs_dir g = elim g.sys_path [ none ↦ "/sys/class/ocxl" | some path ↦ path ]

-- The text before the first dot and the text behind it, if there is one.
pub split_dot : String → Option (String × String)
split_dot String.[] = none
split_dot (String.◌∷◌ c s) =
    if code c == 46
    then some (String.[], s)
    else Option.map (λ p. (String.◌∷◌ c p.0, p.1)) (split_dot s)

-- `"%s/%s"`
abbrev pub in_dir : String → String → String
in_dir dir name = str_append dir (str_append "/" name)

-- `continue` if there is no more context, and `goto end` otherwise.
pub try_next : Outcome ℕ → (OcxlErr → Cmd ℕ) → Outcome ℕ
try_next (failed OcxlErr.no_more_contexts t) rest = rest OcxlErr.no_more_contexts t
try_next o rest = o

module _ ⦃k : Kernel⦄ where
  -- `val && (!strcasecmp(val, "yes") || !strcmp(val, "1"))`
  abbrev pub is_set : String → Bool
  is_set name = elim (k.getenv name) [
    | none ↦ false
    | some v ↦ k.strcasecmp v "yes" || k.strcmp v "1"
  ]

  pub libocxl_init : Globals → Globals
  libocxl_init g =
      if g.libocxl_inited
      then g
      else let trace = is_set "LIBOCXL_TRACE_ALL" in
        let verbose = is_set "LIBOCXL_VERBOSE_ERRORS_ALL" in
        record g {
          tracing_all = trace || g.tracing_all;
          tracing = trace || g.tracing;
          verbose_errors_all = verbose || g.verbose_errors_all;
          verbose_errors = verbose || g.verbose_errors;
          sys_path = elim (k.getenv "LIBOCXL_SYSPATH") [ none ↦ g.sys_path | some v ↦ some v ];
          libocxl_inited = true;
        }

  abbrev pub init : Cmd (Unit {0})
  init s = done tt (record s { globals = libocxl_init s.globals })

  pub device_matches : (dirfd : ℤ) (name : String) (dev : ℕ) → Cmd Bool
  device_matches dirfd name dev = do
    sb ← fstatat dirfd name
    pure (elim sb [ none ↦ false | some p ↦ p.0 && (dev == p.1) ])

  -- The loop over the entries of the directory, which closes it behind the last one.
  pub find_device : (fd : ℤ) (dev : ℕ) → List String → Cmd (Option String)
  find_device fd dev [] = do closedir fd; pure none
  find_device fd dev (name ∷ names) = do
    matches ← device_matches fd name dev
    if matches then pure (some name) else find_device fd dev names

  -- `dev_ent->d_name` after `closedir(dev_dir)`.
  pub read_entry : (name : String) → Cmd String
  read_entry name s = or_fault (k.closed_entry s.log name) s

  -- `errmsg(NULL, OCXL_INTERNAL_ERROR, …); return false;`
  abbrev pub give_up : {A : Type 0} → Cmd A
  give_up = errmsg_null OcxlErr.internal_error >> return_err OcxlErr.no_dev

  abbrev pub give_up_if : Bool → Cmd (Unit {0})
  give_up_if true = give_up
  give_up_if false = pure tt

  abbrev pub or_give_up : {A : Type 0} → Option A → Cmd A
  or_give_up none = give_up
  or_give_up (some a) = pure a

  -- A copy of the path of the device in a directory, on the heap.
  pub copy_path : (dir name : String) → Cmd (ℕ × String)
  copy_path dir name = do
    block ← malloc (len dir + 1 + len name + 1)
    give_up_if (block == 0)
    pure (block, in_dir dir name)

  -- Setting the identifier and the two paths of the AFU from the name of its device.
  pub name_afu : (name : String) → Cmd (Unit {0})
  name_afu name = do
    parts ← or_give_up (split_dot name)
    give_up_if (ltb afu_name_max (len parts.0))
    index ← or_give_up (k.sscanf_index parts.1)
    modify_afu (λ a. record a { identifier = record { afu_index = index; afu_name = parts.0 } })
    g ← gets (λ s. s.globals)
    device ← copy_path (device_dir g) name
    modify_afu (λ a. record a { device_path = some device })
    sysfs ← copy_path (sysfs_dir g) name
    modify_afu (λ a. record a { sysfs_path = some sysfs })

  -- What follows the loop. A failure stands for the result false.
  pub name_found : (fd : ℤ) → Option String → Cmd (Unit {0})
  name_found fd none = return_err OcxlErr.no_dev
  name_found fd (some name) = do closedir fd; name' ← read_entry name; name_afu name'

  pub populate_metadata : (dev : ℕ) → Cmd (Unit {0})
  populate_metadata dev = do
    g ← gets (λ s. s.globals)
    answer ← opendir (device_dir g)
    (fd, names) ← elim answer [ none ↦ return_err OcxlErr.no_dev | some dir ↦ pure dir ]
    found ← find_device fd dev names
    name_found fd found

  pub look_up : (path : String) → Cmd (Unit {0})
  look_up path = do
    answer ← stat path
    dev ← elim answer [ none ↦ fail_null OcxlErr.no_dev | some dev ↦ pure dev ]
    on_error (populate_metadata dev) (λ _. fail_null OcxlErr.no_dev)

  pub get_afu_by_path : (path : String) → Cmd ℕ
  get_afu_by_path path = do
    afu_h ← afu_alloc
    on_error (look_up path) (λ rc. do free afu_h; return_err rc)
    pure afu_h

  pub ocxl_afu_open_from_dev : (path : String) → Cmd ℕ
  ocxl_afu_open_from_dev path = do init; afu_h ← get_afu_by_path path; open_found; pure afu_h

  -- The loop over the matching devices; `ret` is the result so far.
  pub open_first : (ret : OcxlErr) → List String → Cmd ℕ
  open_first ret [] s = return_err ret s
  open_first ret (path ∷ paths) s =
      try_next (ocxl_afu_open_from_dev path s) (λ rc. open_first rc paths)

  -- What is done with the answer of `glob`.
  pub open_found_paths : GlobAnswer → Cmd ℕ
  open_found_paths GlobAnswer.no_space = fail_null OcxlErr.no_mem
  open_found_paths GlobAnswer.no_match = fail_null OcxlErr.no_dev
  open_found_paths GlobAnswer.aborted = fail_null OcxlErr.internal_error
  open_found_paths (GlobAnswer.paths ps) = open_first OcxlErr.internal_error ps

  -- The index -1 is `none`.
  pub ocxl_afu_open_specific :
      (name : String) (physical_function : Option String) (afu_index : Option ℤ) → Cmd ℕ
  ocxl_afu_open_specific name physical_function afu_index = do
    init
    g ← gets (λ s. s.globals)
    answer ← glob (record {
      dir = device_dir g;
      name = name;
      physical_function = physical_function;
      afu_index = afu_index;
    })
    afu_h ← on_error (open_found_paths answer) (λ rc. do globfree; return_err rc)
    globfree
    pure afu_h

  pub ocxl_afu_open : (name : String) → Cmd ℕ
  ocxl_afu_open name = ocxl_afu_open_specific name none none
