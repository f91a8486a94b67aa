-- ===== src/Proto/Failure/Examples.antt =====
-- Instances of the theorems on the failure codes.
use agentmesh_private.Common.{◌≡◌, refl, ◌↔◌, ◌⊎◌, ◌<◌}
use agentmesh_private.Proto.Failure.{timeout, cancelled, exit_code, run_timeout}
use agentmesh_private.Proto.Failure.Codes.{as_str_injective, exit_code-FailureCategory}

as_str_injective_example : run_timeout ≡ run_timeout
as_str_injective_example = as_str_injective run_timeout run_timeout refl

exit_code-FailureCategory_example :
    ((exit_code timeout ≡ exit_code cancelled) ↔ (
      (timeout ≡ cancelled)
      ⊎ ((timeout ≡ timeout) × (cancelled ≡ cancelled))
      ⊎ ((timeout ≡ cancelled) × (cancelled ≡ timeout))))
    × (0 < exit_code timeout)
exit_code-FailureCategory_example = exit_code-FailureCategory timeout cancelled
