-- ===== src/Lockstep/Error.antt =====
-- The exceptions that scripts/lockstep.py raises or lets through.
use pipelined_core.Common.{ℕ, List, Bool, true, false, Result}
use pipelined_core.Common.Text.{Text}

pub data Error : Type 0 where
  -- RuntimeError, in the order of the file
  stream_timeout stream_closed : Error
  process_exited : Error
  prompt_timeout terminal_closed spike_exited : Error
  no_pc_answer : List Text → Error
  not_aligned : ℕ → Error
  not_one_event : List Text → Error
  unmapped_trap : Text → Error
  inconsistent_trap missing_trap : List Text → Error
  no_write_size no_read_size : ℕ → Error
  no_register_answer : ℕ → Error
  no_retirement : ℕ → Error
  dut_ended : ℕ → ℕ → Error
  bad_event : Error
  no_trap : ℕ → Error
  extra_retirement : ℕ → Error
  dut_failed : Error
  -- of other classes
  value_error : Error
  json_error os_error : Error
  index_error : ℕ → Error

-- Whether the `except` clause of `main` names the exception's class.
unfoldable pub is_reported : Error → Bool
is_reported (index_error _) = false
is_reported _ = true

abbrev pub Checked : Type 0 → Type 0
Checked = Result Error
