-- ===== src/Discovery/Runs/Deletion.antt =====
-- A discovery that is being deleted lets go of its pipelines before it loses its finalizer.
use dataprepper_operator.Base.{String, string_eq, Option, none, some}
use dataprepper_operator.Base.Dict.{Dict}
use dataprepper_operator.Discovery.Rollout.{Pipeline}
use dataprepper_operator.Discovery.Cleanup.{orphan}
use dataprepper_operator.Discovery.Objects.{Discovery}

-- A listed pipeline is released, another is as it was.
abbrev pub released : (uid : String) → (listed before : Option Pipeline) → Option Pipeline
released uid none before = before
released uid (some p) before = some (orphan uid p)
