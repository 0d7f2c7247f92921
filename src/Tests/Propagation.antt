-- ===== src/Tests/Propagation.antt =====
-- The defaults reconciler, the secret trigger and the hash at concrete inputs.
use dataprepper_operator.Base.{
  ◌≡◌, ◌↔◌, inl, refl, sym, ◌∙◌, ap, arith, String, Bool, true, false, if◌then◌else◌, ◌==◌,
  string_eq, Option, none, some, List, [], ◌∷◌, All,
}
use dataprepper_operator.Base.Dict.{lookup, insert}
use dataprepper_operator.Base.Int.{ℤ, pos}
use dataprepper_operator.Base.Result.{Result, ok, err}
use dataprepper_operator.Generator.Credentials.{referenced_secrets}
use dataprepper_operator.Reconciler.Resources.{ApiError, not_found}
use dataprepper_operator.Reconciler.Hash.{hash_of_data}
use dataprepper_operator.Reconciler.Triggers.{Item, find_pipelines_for_secret}
use dataprepper_operator.Reconciler.Triggers.Laws.{Any, Asks, find_pipelines_for_secret_iff}
use dataprepper_operator.Propagation.{Annotated, Client, defaults_revision_key, propagate}
use dataprepper_operator.Propagation.Laws.{IsClient, HasRevision}
use dataprepper_operator.Propagation.Runs.{propagate-converges}
use dataprepper_operator.Tests.Samples.{two_pipelines}

abbrev Cluster : Type 0
Cluster = String → Option Annotated

abbrev of_name : String → Option Annotated → Result ApiError Annotated
of_name n none = err not_found
of_name n (some p) = if p.name == n then ok p else err not_found

abbrev list_one : Option Annotated → List Annotated → List Annotated
list_one none ps = ps
list_one (some p) ps = p ∷ ps

abbrev put : Annotated → Cluster → Cluster
put p c = λ n. if p.name == n then some p else c n

abbrev client : Client Cluster
client = record {
  get_defaults = λ c. ok (pos 7);
  list_pipelines = λ c. ok (list_one (c "logs") (list_one (c "traces") []));
  get = λ n c. of_name n (c n);
  update = λ p c. (none, put p c);
  retry_on_conflict = λ f c. f c;
}

same_name : (n : String) → (n == n) ≡ true
same_name n = ground arith

chosen :
    (b : Bool) (q p : Annotated) → (if b then ok q else err not_found) ≡ ok p → (b ≡ true) × (q ≡ p)
chosen true q p h = (refl, cc)
chosen false q p h = cc

equal_names : (a b : String) → (a == b) ≡ true → a ≡ b
equal_names a b h = ground arith

of_name-named :
    (n : String) (o : Option Annotated) (p : Annotated) → of_name n o ≡ ok p → p.name ≡ n
of_name-named n none p h = cc
of_name-named n (some q) p h =
    let (here, same) = chosen (q.name == n) q p h in
    ap (λ x. x.name) (sym same) ∙ equal_names q.name n here

put_again : (p : Annotated) (c : Cluster) → client.get p.name (put p c) ≡ ok p
put_again p c =
    ap (λ b. of_name p.name (if b then some p else c p.name)) (same_name p.name)
    ∙ ap (λ b. if b then ok p else err not_found) (same_name p.name)

client-IsClient : IsClient client
client-IsClient = record {
  named = λ n p c h. of_name-named n (c n) p h;
  stored = λ p c h. put_again p c;
  update_only = λ p n c h. ap (λ b. of_name n (if b then some p else c n)) h;
  retry_last = λ f c. (c, refl);
  retry_only = λ f n c h. h c;
}

abbrev logs : Annotated
logs = record { name = "logs"; annotations = none }

abbrev traces : Annotated
traces = record { name = "traces"; annotations = some [] }

abbrev start : Cluster
start = put logs (put traces (λ n. none))

abbrev decimal : ℤ → String
decimal n = "7"

abbrev revised : List Annotated
revised =
    record logs { annotations = some ((defaults_revision_key, "7") ∷ []) }
    ∷ record traces { annotations = some ((defaults_revision_key, "7") ∷ []) }
    ∷ []

propagate-converges_example :
    (let after = (propagate client decimal start).1 in
      All (λ p. HasRevision client client-IsClient "7" p.name after) (logs ∷ traces ∷ [])
      × (propagate client decimal after ≡ (none, after)))
unfolding propagate string_eq lookup insert
propagate-converges_example =
    propagate-converges client client-IsClient decimal start (pos 7) (logs ∷ traces ∷ []) revised
      refl refl (refl, (refl, tt)) (λ e. cc) refl refl refl (refl, (refl, tt)) (refl, (refl, tt))

abbrev item : Item
item = record { name = "logs"; namespace = "prod"; spec = two_pipelines }

-- Without the index.
find_pipelines_for_secret_iff_example :
    Any
      (λ q. q ≡ record { name = "logs"; namespace = "prod" })
      (find_pipelines_for_secret (λ n. some (item ∷ [])) (λ n s. none) "prod" "kafka-creds")
    ↔ Any (Asks "kafka-creds" (record { name = "logs"; namespace = "prod" })) (item ∷ [])
find_pipelines_for_secret_iff_example =
    find_pipelines_for_secret_iff (λ n. some (item ∷ [])) (λ n s. none) "prod" "kafka-creds"
      (item ∷ []) (record { name = "logs"; namespace = "prod" }) refl (inl refl)

found_once :
    find_pipelines_for_secret (λ n. some (item ∷ [])) (λ n s. none) "prod" "kafka-creds"
    ≡ record { name = "logs"; namespace = "prod" } ∷ []
unfolding find_pipelines_for_secret referenced_secrets string_eq
found_once = refl

abbrev plain_digest : String → String
plain_digest s = s

-- Text that moves from a key to its value leaves the hash as it is.
hash_of_data_collision :
    hash_of_data plain_digest (("username", "x") ∷ [])
    ≡ hash_of_data plain_digest (("user", "namex") ∷ [])
unfolding hash_of_data
hash_of_data_collision = refl
