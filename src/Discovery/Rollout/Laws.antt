-- ===== src/Discovery/Rollout/Laws.antt =====
-- The limits of a reconcile cycle are kept, and its counts add up.
use Prim.Native.Nat.{min}
use dataprepper_operator.Base.{
  ℕ, suc, ◌+◌, ◌-◌, ◌≤◌, leb, ◌≡◌, refl, arith, String, Bool, true, false, is_set, leb→le,
  Bool-cases, Option-cases, inl, inr, Option, none, some, [], ◌∷◌, length, if◌then◌else◌,
}
use dataprepper_operator.Base.Dict.{Dict, lookup, copy_into}
use dataprepper_operator.Base.Result.{ok}
use dataprepper_operator.Discovery.Rollout.{
  Api, Owner, Orders, Pipeline, Desired, Progress, Outcome, ReconcileError, create_missing,
  update_batch, to_update, updated_unhealthy, max_updates_per_cycle, stage, failed, roll_out,
  reconcile_pipelines, on_write, mutate, discovery_label_key, create_failed, update_failed,
}

-- How many of the desired pipelines do not exist.
unfoldable pub missing : Dict Pipeline → Dict Desired → ℕ
missing existing [] = 0
missing existing ((name, d) ∷ ds) =
    let rest = missing existing ds in if is_set (lookup name existing) then rest else suc rest

module _ {Cluster : Type 0} (api : Api Cluster) (owner : Owner) where
  -- At most as many as there is room for and is asked for, and all of these without an error.
  abbrev Counted : (batch n more : ℕ) → Progress Cluster → Type 0
  Counted batch n more p =
      (p.done ≤ min batch (n + more)) × (p.error ≡ none → p.done ≡ min batch (n + more))

  recount :
      (batch n more : ℕ) (p : Progress Cluster)
      → Counted batch (suc n) more p
      → Counted batch n (suc more) p
  recount batch n more p h = (omega (arith, h.0), λ e. omega (arith, h.1 e))

  no_room :
      (limit n more : ℕ) (p : Progress Cluster)
      → limit ≤ n
      → Counted limit n more p
      → Counted limit n (suc more) p
  no_room limit n more p full h = (omega (arith, h.0), λ e. omega (arith, h.1 e))

  on_write_ind :
      (P : Progress Cluster → Type 0) (fail : String → ReconcileError) (n : ℕ) (after : Cluster)
      (failure : Option String) (rest : Progress Cluster)
      → ((e : String) → P (record { error = some (fail e); done = n; cluster = after }))
      → P rest
      → P (on_write api owner fail n after failure rest)
  on_write_ind P fail n after none rest bad good = good
  on_write_ind P fail n after (some e) rest bad good = bad e

  create_missing-count :
      (limit : ℕ) (existing : Dict Pipeline) (ds : Dict Desired) (n : ℕ) (c : Cluster)
      → n ≤ limit
      → Counted limit n (missing existing ds) (create_missing api owner limit existing ds n c)
  unfolding create_missing missing
  create_missing-count limit existing [] n c h = (omega arith, λ e. omega arith)
  create_missing-count limit existing ((name, d) ∷ ds) n c h =
      elim (Bool-cases (is_set (lookup name existing))) [
        | inl there ↦
            rw (create_missing, missing, there) (create_missing-count limit existing ds n c h)
        | inr absent ↦ elim (Bool-cases (leb limit n)) [
          | inl full ↦
              rw (create_missing, missing, absent, full)
                (no_room limit n (missing existing ds)
                  (create_missing api owner limit existing ds n c) (leb→le limit n full)
                  (create_missing-count limit existing ds n c h))
          | inr room ↦
              rw (create_missing, missing, absent, room)
                (on_write_ind (Counted limit n (suc (missing existing ds))) (create_failed name) n _
                  _ _ (λ e. (omega arith, λ g. cc))
                  (recount limit n (missing existing ds)
                    (create_missing api owner limit existing ds (suc n)
                      (api.create_or_update name (mutate owner d) c).1)
                    (create_missing-count limit existing ds (suc n) _ (ground arith))))
        ]
      ]

  -- A batch without an error writes as many updates as it has room for.
  update_batch-count :
      (batch : ℕ) (ds : Dict Desired) (n : ℕ) (c : Cluster)
      → n ≤ batch
      → Counted batch n (length ds) (update_batch api owner batch ds n c)
  unfolding update_batch
  update_batch-count batch [] n c h = (omega arith, λ e. omega arith)
  update_batch-count batch ((name, d) ∷ ds) n c h = elim (Bool-cases (leb batch n)) [
    | inl full ↦ rw (update_batch, full) (ground arith, λ e. ground arith)
    | inr room ↦
        rw (update_batch, room)
          (on_write_ind (Counted batch n (suc (length ds))) (update_failed name) n _ _ _
            (λ e. (omega arith, λ g. cc))
            (recount batch n (length ds)
              (update_batch api owner batch ds (suc n)
                (api.create_or_update name (mutate owner d) c).1)
              (update_batch-count batch ds (suc n) _ (ground arith))))
  ]

module _ {Cluster : Type 0} (api : Api Cluster) (owner : Owner) (orders : Orders) where
  -- What a rollout of `todo` updates among `total` pipelines yields.
  pub record IsStaged (total created todo : ℕ) (unhealthy : Bool) (out : Outcome Cluster)
      : Type 0 where
    pub keeps : out.result.created ≡ created
    pub batch : out.result.updated ≤ max_updates_per_cycle total
    pub adds_up : out.error ≡ none → out.result.updated + out.result.pending_updates ≡ todo
    pub paused : unhealthy ≡ true → out.result.updated ≡ 0
    pub progress :
        out.error ≡ none
        → unhealthy ≡ false
        → out.result.updated ≡ min (max_updates_per_cycle total) todo

  -- What is asked of a cycle, by the number of pipelines, the updates to do and the health check.
  pub record IsCycle (limit total absent todo : ℕ) (unhealthy : Bool) (out : Outcome Cluster)
      : Type 0 where
    pub created : out.result.created ≤ limit
    pub creates_all : out.error ≡ none → out.result.created ≡ min limit absent
    pub updated : out.result.updated ≤ max_updates_per_cycle total
    pub adds_up : out.error ≡ none → out.result.updated + out.result.pending_updates ≡ todo
    pub paused : unhealthy ≡ true → out.result.updated ≡ 0
    pub progress :
        out.error ≡ none
        → unhealthy ≡ false
        → out.result.updated ≡ min (max_updates_per_cycle total) todo

  stage-IsStaged :
      (existing : Dict Pipeline) (unhealthy : Bool) (created : ℕ) (todo : Dict Desired)
      (c : Cluster)
      → IsStaged
          (length existing)
          created
          (length todo)
          unhealthy
          (stage api owner orders existing unhealthy created todo c)
  unfolding stage
  stage-IsStaged existing u created [] c = record {
    keeps = refl;
    batch = omega arith;
    adds_up = λ e. omega arith;
    paused = λ e. refl;
    progress = λ e h. omega arith;
  }
  stage-IsStaged existing true created (t ∷ ts) c = record {
    keeps = refl;
    batch = omega arith;
    adds_up = λ e. omega arith;
    paused = λ e. refl;
    progress = λ e h. ground arith;
  }
  stage-IsStaged existing false created (t ∷ ts) c =
      let counted =
        update_batch-count api owner (max_updates_per_cycle (length existing)) (t ∷ ts) 0 c
          (omega arith) in
      let written = update_batch api owner (max_updates_per_cycle (length existing)) (t ∷ ts) 0 c in
      let full : written.error ≡ none
          → written.done ≡ min (max_updates_per_cycle (length existing)) (0 + suc (length ts))
          → written.done + (if is_set written.error then 0 else suc (length ts) - written.done)
            ≡ suc (length ts) =
        λ e d. rw e (omega (arith, d)) in
      record {
        keeps = refl;
        batch = omega (arith, counted.0);
        adds_up = λ e. full e (counted.1 e);
        paused = λ e. ground arith;
        progress = λ e h. omega (arith, counted.1 e);
      }

  IsCycle-of_stage :
      (limit total absent created todo : ℕ) (unhealthy : Bool) (out : Outcome Cluster)
      → created ≡ min limit absent
      → IsStaged total created todo unhealthy out
      → IsCycle limit total absent todo unhealthy out
  IsCycle-of_stage limit total absent created todo unhealthy out h s = record {
    created = omega (arith, s.keeps);
    creates_all = λ e. rw s.keeps h;
    updated = s.batch;
    adds_up = s.adds_up;
    paused = s.paused;
    progress = s.progress;
  }

  failed-IsCycle :
      (limit total absent created todo : ℕ) (unhealthy : Bool) (e : ReconcileError) (c : Cluster)
      → created ≤ limit
      → IsCycle limit total absent todo unhealthy (failed api owner orders e created c)
  failed-IsCycle limit total absent created todo unhealthy e c h = record {
    created = h;
    creates_all = λ g. cc;
    updated = omega arith;
    adds_up = λ g. cc;
    paused = λ g. refl;
    progress = λ g u. cc;
  }

  -- Once the pipelines are listed, a cycle creates at most as many as the limit allows, and where no
  -- write fails all missing ones that the limit allows. It updates at most a fifth of those that exist, rounded up, or one. It updates none while an earlier update is
  -- unhealthy. Where no write fails, the updated and the pending ones are all that differ from the
  -- template, and the batch is used up unless fewer differ.
  pub reconcile_pipelines-IsCycle :
      (limit : ℕ) (desired : Dict Desired) (items : Dict Pipeline) (c : Cluster)
      → api.list discovery_label_key owner.name c ≡ ok items
      → (let existing = copy_into [] items in
          IsCycle limit
            (length existing)
            (missing existing (orders.creating desired))
            (length (to_update existing (orders.updating desired)))
            (updated_unhealthy desired (orders.checking existing))
            (reconcile_pipelines api owner orders limit (ok desired) c))
  unfolding reconcile_pipelines roll_out
  reconcile_pipelines-IsCycle limit desired items c listed =
      let existing = copy_into [] items in
      let done = create_missing api owner limit existing (orders.creating desired) 0 c in
      let within =
        create_missing-count api owner limit existing (orders.creating desired) 0 c (omega arith) in
      elim (Option-cases done.error) [
        | inl fine ↦
            rw (reconcile_pipelines, listed, fine)
              (IsCycle-of_stage limit (length existing) (missing existing (orders.creating desired))
                done.done (length (to_update existing (orders.updating desired))) _ _
                (omega (arith, within.1 fine)) (stage-IsStaged existing _ _ _ _))
        | inr (e, broken) ↦
            rw (reconcile_pipelines, listed, broken)
              (failed-IsCycle limit (length existing) (missing existing (orders.creating desired))
                done.done _ _ e _ (omega (arith, within.0)))
      ]
