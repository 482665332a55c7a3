-- ===== src/Afu/Ledger.antt =====
-- Counting in the history how often a descriptor was opened and closed, and a block freed.
use Prim.Native.String.{String}
use libocxl.Base.{ℕ, ◌+◌, Option, none, some, List, [], ◌∷◌, ◌==◌, if◌then◌else◌}
use libocxl.Base.Int.{ℤ, pos, negsuc}
use libocxl.Types.{Event, History}

-- 1 if the number is this descriptor.
unfoldable pub is_fd : ℕ → ℤ → ℕ
is_fd n (pos m) = if m == n then 1 else 0
is_fd n (negsuc m) = 0

-- 1 if the stream of the directory has this descriptor.
unfoldable pub is_dirfd : ℕ → Option (ℤ × List String) → ℕ
is_dirfd n none = 0
is_dirfd n (some p) = is_fd n p.0

-- How often descriptor `n` was opened as a file, a directory, an event descriptor or an epoll
-- descriptor.
unfoldable pub opens : ℕ → History → ℕ
opens n [] = 0
opens n (Event.open_file path fd ∷ l) = is_fd n fd + opens n l
opens n (Event.opendir path answer ∷ l) = is_dirfd n answer + opens n l
opens n (Event.eventfd fd ∷ l) = is_fd n fd + opens n l
opens n (Event.epoll_create fd ∷ l) = is_fd n fd + opens n l
opens n (e ∷ l) = opens n l

-- How often descriptor `n` was closed, as the descriptor of a directory too.
unfoldable pub closes : ℕ → History → ℕ
closes n [] = 0
closes n (Event.close fd ∷ l) = is_fd n fd + closes n l
closes n (Event.closedir fd ∷ l) = is_fd n fd + closes n l
closes n (e ∷ l) = closes n l

-- How often block `b` was freed.
unfoldable pub frees : ℕ → History → ℕ
frees b [] = 0
frees b (Event.free block ∷ l) = (if block == b then 1 else 0) + frees b l
frees b (e ∷ l) = frees b l
