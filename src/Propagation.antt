-- ===== src/Propagation.antt =====
-- The reconciler of the defaults, internal/controller/dataprepperdefaults_controller.go: it puts the
-- generation of the defaults on every pipeline of the namespace, whose reconciler then runs again.
-- The client is a parameter, and so is fmt's "%d"; events, metrics and log lines are left out.
pub mod Laws
pub mod Runs
use dataprepper_operator.Base.{
  String, Bool, true, false, ◌&&◌, if◌then◌else◌, ◌==◌, string_eq, Option, none, some, List, [],
  ◌∷◌,
}
use dataprepper_operator.Base.Dict.{Dict, lookup, insert}
use dataprepper_operator.Base.Int.{ℤ}
use dataprepper_operator.Base.Result.{Result, ok, err}
use dataprepper_operator.Reconciler.Resources.{ApiError, not_found, api_failed}

abbrev pub defaults_revision_key : String
defaults_revision_key = "dataprepper.kaasops.io/defaults-revision"

-- A pipeline, by its name and annotations; `none` is a nil map.
pub record Annotated : Type 0 where
  pub name : String
  pub annotations : Option (Dict String)

-- `get_defaults` answers with the generation.
pub record Client (Cluster : Type 0) : Type 0 where
  pub get_defaults : Cluster → Result ApiError ℤ
  pub list_pipelines : Cluster → Result String (List Annotated)
  pub get : (name : String) → Cluster → Result ApiError Annotated
  pub update : Annotated → Cluster → Option ApiError × Cluster
  pub retry_on_conflict :
      (Cluster → Option ApiError × Cluster) → Cluster → Option ApiError × Cluster

pub data PropagateError : Type 0 where
  fetch_failed : ApiError → PropagateError
  list_failed : String → PropagateError
  update_failed : (name : String) → ApiError → PropagateError

-- The annotation's value, or the empty text.
abbrev pub value_of : Option String → String
value_of none = ""
value_of (some v) = v

-- `p.Annotations != nil && p.Annotations[key] == revision`
abbrev pub is_current : (revision : String) → Option (Dict String) → Bool
is_current revision none = false
is_current revision (some m) = value_of (lookup defaults_revision_key m) == revision

abbrev pub put_revision : (revision : String) → Option (Dict String) → Dict String
put_revision revision none = insert defaults_revision_key revision []
put_revision revision (some m) = insert defaults_revision_key revision m

module _ {Cluster : Type 0} (client : Client Cluster) where
  abbrev pub update_read :
      (revision : String) → Result ApiError Annotated → Cluster → Option ApiError × Cluster
  update_read revision (err e) c = (some e, c)
  update_read revision (ok p) c =
      client.update (record p { annotations = some (put_revision revision p.annotations) }) c

  -- The function that RetryOnConflict runs, and its call.
  unfoldable pub touch : (revision name : String) → Cluster → Option ApiError × Cluster
  unfolding insert
  touch revision name c =
      client.retry_on_conflict (λ now. update_read revision (client.get name now) now) c

  -- The first error ends the loop.
  abbrev pub after_touch :
      (name : String)
      → Option ApiError × Cluster
      → (rest : Cluster → Option PropagateError × Cluster) → Option PropagateError × Cluster
  after_touch name (some e, c) rest = (some (update_failed name e), c)
  after_touch name (none, c) rest = rest c

  -- The loop.
  unfoldable pub touch_all :
      (revision : String) → List Annotated → Cluster → Option PropagateError × Cluster
  unfolding touch lookup
  touch_all revision [] c = (none, c)
  touch_all revision (p ∷ ps) c =
      if is_current revision p.annotations
      then touch_all revision ps c
      else after_touch p.name (touch revision p.name c) (touch_all revision ps)

  abbrev pub propagate_to :
      (revision : String)
      → Result String (List Annotated)
      → Cluster
      → Option PropagateError × Cluster
  propagate_to revision (err e) c = (some (list_failed e), c)
  propagate_to revision (ok ps) c = touch_all revision ps c

  module _ (decimal : ℤ → String) where
    abbrev pub propagate_found : Result ApiError ℤ → Cluster → Option PropagateError × Cluster
    propagate_found (err not_found) c = (none, c)
    propagate_found (err (api_failed cause)) c = (some (fetch_failed (api_failed cause)), c)
    propagate_found (ok generation) c =
        propagate_to (decimal generation) (client.list_pipelines c) c

    -- Reconcile: the error, and the cluster after it.
    unfoldable pub propagate : Cluster → Option PropagateError × Cluster
    unfolding touch_all
    propagate c = propagate_found (client.get_defaults c) c
