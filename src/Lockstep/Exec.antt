-- ===== src/Lockstep/Exec.antt =====
-- The effects of scripts/lockstep.py: a world, and the exceptions of the script.
use pipelined_core.Lockstep.Error.{Error}
pub use pipelined_core.Common.Exec.{
  Effect, pure, raise, lift, exec_if, exec_raise_if, bind-eq-ok, bind-post,
}
unfoldable pub use pipelined_core.Common.Exec.{◌>>=◌, ◌>>◌}

abbrev pub Exec : Type 0 → Type 0 → Type 0
Exec W A = Effect Error W A
