-- ===== src/Tests/Cluster.antt =====
-- An API server that keeps its objects in a function, and stand-ins for the libraries.
use dataprepper_operator.Base.{
  ◌≡◌, ◌⊎◌, inl, inr, refl, sym, ap, ◌∙◌, if_ind, arith, String, Bool, true, false, Option, none,
  some, List, [], ◌∷◌, if◌then◌else◌, ◌==◌, string_eq, nat_eq, contains,
}
use dataprepper_operator.Base.Int.{pos}
use dataprepper_operator.Base.Result.{Result, ok, err}
use dataprepper_operator.Discovery.Rollout.{OwnerReference}
use dataprepper_operator.Discovery.Cycle.{Condition}
use dataprepper_operator.Reconciler.Resources.{Key, key_eq, Object, ApiError, not_found, Api}
use dataprepper_operator.Reconciler.Resources.Server.{
  as_sent, IsStored, current, IsServer, IsAvailable, IsController,
}
use dataprepper_operator.Reconciler.Planning.{Client, Libraries, Pipeline}
use dataprepper_operator.Reconciler.Cycle.Runs.{IsClient}
use dataprepper_operator.Reconciler.Cycle.Reports.{IsConditions}
use dataprepper_operator.Tests.Samples.{read_json}

pub record Cluster : Type 0 where
  pub objects : Key → Option Object
  pub pipelines : String → Option Pipeline

abbrev found : {A : Type 0} → Option A → Result ApiError A
found none = err not_found
found (some a) = ok a

abbrev put_object : Key → Option Object → Cluster → Cluster
put_object k o c = record c { objects = λ j. if key_eq k j then o else c.objects j }

abbrev put_made : Key → Result String Object → Cluster → Option String × Cluster
put_made k (err e) c = (some e, c)
put_made k (ok o) c = (none, put_object k (some o) c)

abbrev pub server : Api Cluster
server = record {
  get = λ k c. found (c.objects k);
  create_or_update = λ k fresh f c. put_made k (f (current fresh (found (c.objects k)))) c;
  delete = λ k c. (none, put_object k none c);
}

key_eq-same : (k : Key) → key_eq k k ≡ true
key_eq-same k = ground arith

put_made-stores :
    (k : Key) (r : Result String Object) (c : Cluster)
    → (put_made k r c).0 ≡ none
    → (o kept : Object) × (r ≡ ok o) × (server.get k (put_made k r c).1 ≡ ok kept) × IsStored o kept
put_made-stores k (err e) c h = cc
put_made-stores k (ok o) c h = (
  o,
  o,
  refl,
  ap (λ b. found (if b then some o else c.objects k)) (key_eq-same k),
  record { labels = refl; owner_references = refl; spec = as_sent o.spec },
)

put_made-leaves :
    (k : Key) (f : Object → Result String Object) (fresh o : Object) (c : Cluster)
    → found (c.objects k) ≡ ok o
    → f o ≡ ok o
    → server.get k (put_made k (f (current fresh (found (c.objects k)))) c).1 ≡ ok o
put_made-leaves k f fresh o c there fixed =
    ap (λ r. server.get k (put_made k (f (current fresh r)) c).1) there
    ∙ ap (λ r. server.get k (put_made k r c).1) fixed
    ∙ ap (λ b. found (if b then some o else c.objects k)) (key_eq-same k)

put_made-only :
    (k other : Key) (r : Result String Object) (c : Cluster)
    → key_eq k other ≡ false
    → server.get other (put_made k r c).1 ≡ server.get other c
put_made-only k other (err e) c h = refl
put_made-only k other (ok o) c h = ap (λ b. found (if b then some o else c.objects other)) h

pub server-IsServer : IsServer server
server-IsServer = record {
  stores = λ k fresh f c h. put_made-stores k (f (current fresh (found (c.objects k)))) c h;
  leaves = λ k fresh o f c there fixed. put_made-leaves k f fresh o c there fixed;
  removes = λ k c h. ap (λ b. found (if b then none else c.objects k)) (key_eq-same k);
  stores_only =
      λ k other fresh f c h. put_made-only k other (f (current fresh (found (c.objects k)))) c h;
  removes_only = λ k other c h. ap (λ b. found (if b then none else c.objects other)) h;
}

found-cases : (o : Option Object) → (found o ≡ err not_found) ⊎ ((a : Object) × (found o ≡ ok a))
found-cases none = inl refl
found-cases (some a) = inr (a, refl)

pub server-IsAvailable : IsAvailable server
server-IsAvailable = record {
  answers = λ k c. found-cases (c.objects k);
  writes = λ k fresh o f c h. ap (λ r. (put_made k r c).0) h;
  deletes = λ k o c h. refl;
}

abbrev put_pipeline : Pipeline → Cluster → Cluster
put_pipeline p c = record c { pipelines = λ n. if p.owner.name == n then some p else c.pipelines n }

-- An entry under another name than its own is not found.
abbrev of_name : String → Option Pipeline → Result ApiError Pipeline
of_name n none = err not_found
of_name n (some p) = if p.owner.name == n then ok p else err not_found

abbrev pub client : Client Cluster
client = record {
  objects = server;
  get_pipeline = λ n c. of_name n (c.pipelines n);
  update = λ p c. (none, put_pipeline p c);
  update_status = λ p c. (none, put_pipeline p c);
  get_defaults = λ c. none;
  get_secret = λ c n. none;
  deployment_status = λ n c. some (pos 2, pos 2);
  count_partitions = λ c. none;
  retry_on_conflict = λ f c. f c;
}

same_name : (n : String) → (n == n) ≡ true
same_name n = ground arith

chosen :
    (b : Bool) (q p : Pipeline) → (if b then ok q else err not_found) ≡ ok p → (b ≡ true) × (q ≡ p)
chosen true q p h = (refl, cc)
chosen false q p h = cc

equal_names : (a b : String) → (a == b) ≡ true → a ≡ b
equal_names a b h = ground arith

of_name-named :
    (n : String) (o : Option Pipeline) (p : Pipeline) → of_name n o ≡ ok p → p.owner.name ≡ n
of_name-named n none p h = cc
of_name-named n (some q) p h =
    let (here, same) = chosen (q.owner.name == n) q p h in
    ap (λ x. x.owner.name) (sym same) ∙ equal_names q.owner.name n here

stored_again :
    (p : Pipeline) (c : Cluster) → client.get_pipeline p.owner.name (put_pipeline p c) ≡ ok p
stored_again p c =
    let n = p.owner.name in
    ap (λ b. of_name n (if b then some p else c.pipelines n)) (same_name n)
    ∙ ap (λ b. if b then ok p else err not_found) (same_name n)

pub client-IsClient : IsClient client
client-IsClient = record {
  server = server-IsServer;
  update_only = λ p k c. refl;
  status_only = λ p k c. refl;
  named = λ n p c h. of_name-named n (c.pipelines n) p h;
  status_stored = λ p c h. (p, stored_again p c, refl);
  retry_only = λ f k c h. h c;
  retry_last = λ f c. (c, refl);
}

abbrev owned_by : String → List OwnerReference → Bool
owned_by uid [] = false
owned_by uid (r ∷ rs) = let rest = owned_by uid rs in if r.uid == uid then true else rest

abbrev add_owner : List OwnerReference → List OwnerReference
add_owner refs =
    if owned_by "uid-1" refs then refs else record { uid = "uid-1"; controller = true } ∷ refs

add_owner_idem : (refs : List OwnerReference) → add_owner (add_owner refs) ≡ add_owner refs
unfolding string_eq
add_owner_idem refs =
    if_ind (λ (rs : List OwnerReference). add_owner rs ≡ rs) (owned_by "uid-1" refs) refs
      (record { uid = "uid-1"; controller = true } ∷ refs)
      (λ h. ap (λ b. if b then refs else record { uid = "uid-1"; controller = true } ∷ refs) h)
      (λ h. refl)

abbrev set_condition : Condition → List Condition → List Condition
set_condition new cs = new ∷ cs

abbrev pub find_condition : String → List Condition → Option Condition
find_condition type [] = none
find_condition type (c ∷ cs) =
    let rest = find_condition type cs in if c.type == type then some c else rest

pub set_condition-IsConditions : IsConditions set_condition find_condition
set_condition-IsConditions new type cs = refl

abbrev pub libraries : Libraries
libraries = record {
  set_controller_reference = λ refs. ok (add_owner refs);
  contains_finalizer = λ f fs. contains fs f;
  add_finalizer = λ f fs. f ∷ fs;
  remove_finalizer = λ f fs. [];
  set_status_condition = set_condition;
  unmarshal = read_json;
  to_yaml = λ fs. ok "yaml";
  digest = λ s. s;
  decimal = λ n. "n";
  int32_of_inf = pos 0;
}

kept :
    (refs after : List OwnerReference)
    → libraries.set_controller_reference refs ≡ ok after
    → libraries.set_controller_reference after ≡ ok after
kept refs after h = cc (add_owner_idem refs, h)

pub libraries-IsController : IsController libraries.set_controller_reference
libraries-IsController = record { keeps = λ refs after h. kept refs after h }

pub libraries-owns :
    (refs : List OwnerReference)
    → (after : List OwnerReference) × (libraries.set_controller_reference refs ≡ ok after)
libraries-owns refs = (add_owner refs, refl)
