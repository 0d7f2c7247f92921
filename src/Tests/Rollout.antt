-- ===== src/Tests/Rollout.antt =====
-- Rollout and cleanup at concrete inputs. The API server of the tests keeps its objects in a list.
use dataprepper_operator.Base.{
  ◌⊎◌, inl, inr, ◌++◌, ◌≡◌, refl, ◌∙◌, ap, if◌then◌else◌, Bool, arith, nat_eq, String, true, false,
  ◌==◌, string_eq, ℕ_discrete, contains, is_set, length, Option, none, some, List, [], ◌∷◌,
}
use dataprepper_operator.Base.Int.{pos}
use dataprepper_operator.Base.Dict.{
  Dict, lookup, insert, erase, copy_into, lookup-insert, lookup-erase,
}
use dataprepper_operator.Base.Result.{Result, ok, err, Result-cases}
use dataprepper_operator.Api.Pipeline.{PipelinePhase}
use dataprepper_operator.Discovery.Names.{sanitize_name}
use dataprepper_operator.Discovery.Sources.{DiscoveredSource, topic}
use dataprepper_operator.Discovery.Rollout.{
  Api, Owner, Orders, Pipeline, Desired, mutate, create_missing, to_update, updated_unhealthy,
  reconcile_pipelines, build_desired, discovery_label_key, orphaned_label_key,
}
use dataprepper_operator.Discovery.Rollout.Laws.{IsCycle, missing, reconcile_pipelines-IsCycle}
use dataprepper_operator.Discovery.Rollout.Writes.{
  Among, IsWritten, IsWriter, reconcile_pipelines-writes,
}
use dataprepper_operator.Discovery.Cleanup.{cleanup_orphans, active_names}
use dataprepper_operator.Discovery.Cleanup.Laws.{IsLeaving, IsStore, is_orphan, cleanup_orphans_lem}
use dataprepper_operator.Discovery.Cycle.{DiscoveryPhase, build_discovery_status}
use dataprepper_operator.Discovery.Cycle.Laws.{pipeline_refs, build_desired-active_names}
use dataprepper_operator.Tests.Samples.{two_pipelines}

-- An API server whose writes all succeed. Its listing takes all objects.
abbrev blank : Pipeline
blank = record {
  deleting = false;
  labels = [];
  annotations = [];
  owner_references = [];
  spec = two_pipelines;
  phase = PipelinePhase.unset;
}

abbrev or_blank : Option Pipeline → Pipeline
or_blank none = blank
or_blank (some p) = p

abbrev server : Api (Dict Pipeline)
server = record {
  get = lookup;
  list = λ label value c. ok c;
  create_or_update = λ name f c. elim (f (or_blank (lookup name c))) [
    | err e ↦ (some e, c)
    | ok p ↦ (none, insert name p c)
  ];
  update = λ name p c. (none, insert name p c);
  delete = λ name c. (none, erase name c);
}

pub erased :
    (name k : String) (c : Dict Pipeline)
    → ((name == k) ≡ false → lookup k (erase name c) ≡ lookup k c)
      × ((name == k) ≡ true → IsLeaving (lookup k (erase name c)))
erased name k c =
    let chosen = λ (b : Bool). if b then none else lookup k c in
    (λ e. lookup-erase name k c ∙ ap chosen e, λ e. inl (lookup-erase name k c ∙ ap chosen e))

server-IsStore : IsStore server
server-IsStore = record {
  deleted = λ name c h k. erased name k c;
  updated = λ name p c h k. lookup-insert name k p c;
}

abbrev owner : Owner
owner = record { name = "disc"; set_controller_reference = λ refs. ok refs }

abbrev as_listed : Orders
as_listed = record { creating = λ d. d; updating = λ d. d; checking = λ p. p }

abbrev outdated : Dict Pipeline
outdated = ("disc-a", blank) ∷ ("disc-b", blank) ∷ []

abbrev wanted : Dict Desired
wanted =
    ("disc-a", record { spec = two_pipelines; hash = "new" })
    ∷ ("disc-b", record { spec = two_pipelines; hash = "new" })
    ∷ ("disc-c", record { spec = two_pipelines; hash = "new" })
    ∷ []

-- One pipeline is created, one of the two others updated, and one is pending.
reconcile_pipelines_once :
    (reconcile_pipelines server owner as_listed 10 (ok wanted) outdated).result
    ≡ record { created = 1; updated = 1; pending_updates = 1; health_check_fail = false }
unfolding reconcile_pipelines string_eq lookup insert copy_into mutate to_update updated_unhealthy
    create_missing
reconcile_pipelines_once = refl

reconcile_pipelines-IsCycle_example :
    IsCycle server owner as_listed 10
      (length (copy_into [] outdated))
      (missing (copy_into [] outdated) wanted)
      (length (to_update (copy_into [] outdated) wanted))
      (updated_unhealthy wanted (copy_into [] outdated))
      (reconcile_pipelines server owner as_listed 10 (ok wanted) outdated)
reconcile_pipelines-IsCycle_example =
    reconcile_pipelines-IsCycle server owner as_listed 10 wanted outdated outdated refl

server-stored :
    (name : String) (f : Pipeline → Result String Pipeline) (c : Dict Pipeline)
    → (server.create_or_update name f c).0 ≡ none
    → (before p : Pipeline) × (f before ≡ ok p)
      × (lookup name (server.create_or_update name f c).1 ≡ some p)
server-stored name f c h = elim (Result-cases (f (or_blank (lookup name c)))) [
  | inl (e, bad) ↦ let never : some e ≡ none = rw bad at h in cc
  | inr (p, fine) ↦
      (or_blank (lookup name c), p, fine, rw fine (ground (arith, lookup-insert name name p c)))
]

server-others :
    (name : String) (f : Pipeline → Result String Pipeline) (c : Dict Pipeline)
    → (server.create_or_update name f c).0 ≡ none
    → (k : String) → (name == k) ≡ false
    → lookup k (server.create_or_update name f c).1 ≡ lookup k c
server-others name f c h k differ = elim (Result-cases (f (or_blank (lookup name c)))) [
  | inl (e, bad) ↦ rw bad refl
  | inr (p, fine) ↦ rw fine (ground (arith, lookup-insert name k p c))
]

server-IsWriter : IsWriter server
server-IsWriter = record { stored = server-stored; others = server-others }

no_error : (reconcile_pipelines server owner as_listed 10 (ok wanted) outdated).error ≡ none
unfolding reconcile_pipelines string_eq lookup insert copy_into mutate to_update updated_unhealthy
    create_missing
no_error = refl

reconcile_pipelines-writes_example :
    (let after =
        lookup "disc-c"
          (reconcile_pipelines server owner as_listed 10 (ok wanted) outdated).cluster in
      (after ≡ lookup "disc-c" outdated)
      ⊎ ((p : Pipeline) × (d : Desired) × Among "disc-c" d
            (wanted ++ to_update (copy_into [] outdated) wanted)
          × (after ≡ some p)
          × IsWritten owner d p))
reconcile_pipelines-writes_example =
    reconcile_pipelines-writes server owner server-IsWriter as_listed 10 wanted outdated outdated
      refl no_error "disc-c"

abbrev found : List DiscoveredSource
found = record { name = "a"; metadata = topic (pos 1) } ∷ []

cleanup_orphans_lem_example :
    ((cleanup_orphans server "disc" "uid" "Delete" found outdated).0 ≡ none
      → (is_orphan (active_names "disc" found) outdated "disc-b" ≡ false
          → server.get "disc-b" (cleanup_orphans server "disc" "uid" "Delete" found outdated).1
            ≡ server.get "disc-b" outdated)
        × (is_orphan (active_names "disc" found) outdated "disc-b" ≡ true
            → IsLeaving (
                server.get "disc-b"
                  (cleanup_orphans server "disc" "uid" "Delete" found outdated).1)))
    × ((cleanup_orphans server "disc" "uid" "Orphan" found outdated).0 ≡ none
        → (is_orphan (active_names "disc" found) outdated "disc-b" ≡ false
            → server.get "disc-b" (cleanup_orphans server "disc" "uid" "Orphan" found outdated).1
              ≡ server.get "disc-b" outdated)
          × (is_orphan (active_names "disc" found) outdated "disc-b" ≡ true
              → (p : Pipeline) × (server.get "disc-b"
                    (cleanup_orphans server "disc" "uid" "Orphan" found outdated).1
                  ≡ some p)
                × (lookup discovery_label_key p.labels ≡ none)
                × (lookup orphaned_label_key p.labels ≡ some "true")))
cleanup_orphans_lem_example =
    cleanup_orphans_lem server server-IsStore "disc" "uid" found outdated outdated refl "disc-b"

abbrev wanted_now : Dict Desired
wanted_now = ("disc-a", record { spec = two_pipelines; hash = "h" }) ∷ []

rendered : build_desired (λ s. ok two_pipelines) (λ s. "h") "disc" [] found ≡ ok wanted_now
unfolding build_desired sanitize_name ℕ_discrete insert
rendered = refl

build_desired-active_names_example :
    ((name : String) → is_set (lookup name wanted_now) ≡ contains (active_names "disc" found) name)
    × (pipeline_refs (build_discovery_status "disc" DiscoveryPhase.running found).sources
        ≡ active_names "disc" found)
build_desired-active_names_example =
    build_desired-active_names (λ s. ok two_pipelines) (λ s. "h") "disc" DiscoveryPhase.running
      found wanted_now rendered
