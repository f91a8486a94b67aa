-- ===== src/Host/Run/Stderr.antt =====
-- crates/agentmesh-host/src/run.rs: the task that drains the plugin's stderr. SHA-256 and the lossy
-- decoding of the standard library are parameters.
pub mod Drained
use agentmesh_private.Common.{
  ℕ, ◌+◌, ◌-◌, Text, Bool, true, false, Option, none, some, List, [], ◌∷◌, ◌++◌, length, take, ltb,
  leb, if◌then◌else◌,
}
use agentmesh_private.Host.Sidecar.{StderrCapture}

-- The variables of the task; `hashed` is what the hasher was fed.
pub record Drain : Type 0 where
  pub retained : Text
  pub total : ℕ
  pub truncated : Bool
  pub hashed : Text

abbrev pub drained_nothing : Drain
drained_nothing = record { retained = []; total = 0; truncated = false; hashed = [] }

-- The arm `Ok(n)` with n > 0; `truncated = true` is the last assignment of a branch.
unfoldable pub drain_chunk : ℕ → Drain → Text → Drain
drain_chunk limit d chunk = record {
  retained =
      if ltb (length d.retained) limit
      then d.retained ++ take (limit - length d.retained) chunk
      else d.retained;
  total = d.total + length chunk;
  truncated =
      if ltb (length d.retained) limit
      then (if ltb (limit - length d.retained) (length chunk) then true else d.truncated)
      else true;
  hashed = d.hashed ++ chunk;
}

-- The loop on the results of `read`: an error (`none`) or no byte ends it.
unfoldable pub drain : ℕ → Drain → List (Option Text) → Drain
drain limit d [] = d
drain limit d (none ∷ reads) = d
drain limit d (some [] ∷ reads) = d
drain limit d (some (b ∷ s) ∷ reads) = drain limit (drain_chunk limit d (b ∷ s)) reads

abbrev pub captured : (Text → Text) → (Text → Text) → Bool → Drain → StderrCapture
captured sha256_hex lossy capture_raw d = record {
  byte_count = d.total;
  sha256 = sha256_hex d.hashed;
  truncated = d.truncated;
  raw_utf8_lossy = if capture_raw then some (lossy d.retained) else none;
  sensitive_content = capture_raw;
}

-- The value of the task.
unfoldable pub stderr_capture :
    (Text → Text) → (Text → Text) → ℕ → Bool → List (Option Text) → StderrCapture
stderr_capture sha256_hex lossy limit capture_raw reads =
    captured sha256_hex lossy capture_raw (drain limit drained_nothing reads)
