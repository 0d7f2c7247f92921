-- ===== src/Discovery/Cleanup.antt =====
-- Children without a source: cleanupOrphans, cleanupOnDeletion and removeOwnerRef of
-- datapreppersourcediscovery_controller.go.
pub mod Laws
use dataprepper_operator.Base.{
  String, ◌<>◌, Bool, true, false, not, if◌then◌else◌, ◌==◌, string_eq, contains, Option, none,
  some, List, [], ◌∷◌, map,
}
use dataprepper_operator.Base.Dict.{Dict, insert, erase}
use dataprepper_operator.Base.Result.{Result, ok, err}
use dataprepper_operator.Discovery.Names.{sanitize_name}
use dataprepper_operator.Discovery.Sources.{DiscoveredSource}
use dataprepper_operator.Discovery.Rollout.{
  Api, Pipeline, OwnerReference, discovery_label_key, orphaned_label_key,
}

unfoldable pub remove_owner_ref : String → List OwnerReference → List OwnerReference
remove_owner_ref uid [] = []
remove_owner_ref uid (r ∷ rs) =
    let rest = remove_owner_ref uid rs in if not (r.uid == uid) then r ∷ rest else rest

-- The pipeline without its ties to the discovery.
unfoldable pub orphan : (uid : String) → Pipeline → Pipeline
unfolding remove_owner_ref
orphan uid p = record p {
  owner_references = remove_owner_ref uid p.owner_references;
  labels = insert orphaned_label_key "true" (erase discovery_label_key p.labels);
}

pub data CleanupError : Type 0 where
  list_failed : String → CleanupError
  orphan_failed delete_failed : (name cause : String) → CleanupError

-- The names of the pipelines that have a source.
unfoldable pub active_names : (owner : String) → List DiscoveredSource → List String
active_names owner [] = []
active_names owner (s ∷ ss) = sanitize_name (owner <> "-" <> s.name) ∷ active_names owner ss

module _ {Cluster : Type 0} (api : Api Cluster) (owner uid policy : String) where
  abbrev pub wrap : (String → CleanupError) → Option String → Option CleanupError
  wrap f none = none
  wrap f (some e) = some (f e)

  unfoldable pub clean : String → Pipeline → Cluster → Option CleanupError × Cluster
  unfolding orphan
  clean name p c =
      if policy == "Delete"
      then (let (failure, after) = api.delete name c in (wrap (delete_failed name) failure, after))
      else if policy == "Orphan"
      then (let (failure, after) = api.update name (orphan uid p) c in
          (wrap (orphan_failed name) failure, after))
      else (none, c)

  -- Go on with `rest` unless there is an error.
  abbrev pub or_stop :
      Option CleanupError → Cluster → Option CleanupError × Cluster → Option CleanupError × Cluster
  or_stop none after rest = rest
  or_stop (some e) after rest = (some e, after)

  unfoldable pub clean_all :
      (active : List String) → Dict Pipeline → Cluster → Option CleanupError × Cluster
  unfolding clean
  clean_all active [] c = (none, c)
  clean_all active ((name, p) ∷ ps) c = elim (contains active name) [
    | true ↦ clean_all active ps c
    | false ↦
        let (failure, after) = clean name p c in or_stop failure after (clean_all active ps after)
  ]

  unfoldable pub cleanup_orphans : List DiscoveredSource → Cluster → Option CleanupError × Cluster
  unfolding active_names clean_all
  cleanup_orphans sources c = elim (api.list discovery_label_key owner c) [
    | err e ↦ (some (list_failed e), c)
    | ok items ↦ clean_all (active_names owner sources) items c
  ]

  -- With the policy "Delete" the garbage collector takes the children.
  unfoldable pub orphan_all : Dict Pipeline → Cluster → Option CleanupError × Cluster
  unfolding orphan
  orphan_all [] c = (none, c)
  orphan_all ((name, p) ∷ ps) c =
      let (failure, after) = api.update name (orphan uid p) c in
      or_stop (wrap (orphan_failed name) failure) after (orphan_all ps after)

  unfoldable pub cleanup_on_deletion : Cluster → Option CleanupError × Cluster
  unfolding orphan_all
  cleanup_on_deletion c = elim (api.list discovery_label_key owner c) [
    | err e ↦ (some (list_failed e), c)
    | ok items ↦ if policy == "Orphan" then orphan_all items c else (none, c)
  ]
