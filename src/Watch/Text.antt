-- ===== src/Watch/Text.antt =====
-- The texts of the rows that the watch loop writes: `src/main.rs` and `src/storage/writer.rs`.
use Prim.Native.String.{String, [], ◌∷◌, ◌++◌}
use Prim.Native.Char.{code}
use tick_liq.Prelude.Tests.{◌==◌, if◌then◌else◌}

-- `reason.replace(' ', "_")`
unfoldable pub underscored : String → String
underscored [] = []
underscored (c ∷ s) = (if code c == 32 then "_" else c) ∷ underscored s

-- The texts of `write_approval_skip`.
abbrev pub skip_trigger : String → String
skip_trigger reason = "approval_" ++ reason

abbrev pub skip_message : String → String
skip_message reason = "Rebalance skipped: " ++ reason
