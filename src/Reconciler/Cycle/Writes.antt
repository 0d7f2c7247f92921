-- ===== src/Reconciler/Cycle/Writes.antt =====
-- The writes of a run, one after another.
use dataprepper_operator.Base.{
  ◌≡◌, refl, sym, ◌∙◌, subst, arith, String, true, false, Option, none, some, List, [], ◌∷◌, All,
  inl, inr, Option-cases, Bool-cases, string_eq, nat_eq,
}
use dataprepper_operator.Base.Result.{ok}
use dataprepper_operator.Discovery.Rollout.{OwnerReference}
use dataprepper_operator.Reconciler.Resources.{
  Kind, config_map_kind, kind_index, Key, key_eq, Wanted, reconcile_or_delete,
}
use dataprepper_operator.Reconciler.Resources.Server.{IsServer, IsAvailable, IsController}
use dataprepper_operator.Reconciler.Resources.Settled.{
  IsStable, IsSettled, reconcile_or_delete-only, reconcile_or_delete-IsSettled,
  reconcile_or_delete-again, reconcile_or_delete-total,
}
use dataprepper_operator.Reconciler.Planning.{Client, Libraries, ReconcileError, write_failed}
use dataprepper_operator.Reconciler.Cycle.{apply}

-- No two of the writes have the same key.
abbrev pub Apart : List (String × Wanted) → Type 0
Apart [] = Unit
Apart (w ∷ ws) = All (λ v. key_eq v.1.key w.1.key ≡ false) ws × Apart ws

abbrev pub Elsewhere : List (String × Wanted) → Key → Type 0
Elsewhere ws k = All (λ w. key_eq w.1.key k ≡ false) ws

kind_index-injective : (a b : Kind) → kind_index a ≡ kind_index b → a ≡ b
kind_index-injective config_map_kind config_map_kind h = refl
kind_index-injective a b h = ground arith

key_eq_sound : (a b : Key) → key_eq a b ≡ true → a ≡ b
key_eq_sound a b h = ground (arith, kind_index-injective a.kind b.kind)

All-map {ℓ κ} :
    {A : Type ℓ} (P Q : A → Type κ) (xs : List A) → ((x : A) → P x → Q x) → All P xs → All Q xs
All-map P Q [] f h = tt
All-map P Q (x ∷ xs) f h = (f x h.0, All-map P Q xs f h.1)

module _ {Cluster : Type 0} (client : Client Cluster) (libraries : Libraries)
    (server : IsServer client.objects) where
  abbrev run_one : Wanted → Cluster → Option String × Cluster
  run_one = reconcile_or_delete libraries.set_controller_reference client.objects

  abbrev pub AllSettled : List (String × Wanted) → Cluster → Type 0
  AllSettled ws c =
      All (λ w. IsSettled libraries.set_controller_reference w.1 (client.objects.get w.1.key c)) ws

  apply-none :
      (what : String) (w : Wanted) (ws : List (String × Wanted)) (c : Cluster)
      → (run_one w c).0 ≡ none
      → apply client libraries ((what, w) ∷ ws) c ≡ apply client libraries ws (run_one w c).1
  unfolding apply
  apply-none what w ws c e = rw (apply, e) refl

  apply-some :
      (what : String) (w : Wanted) (ws : List (String × Wanted)) (c : Cluster) (cause : String)
      → (run_one w c).0 ≡ some cause
      → apply client libraries ((what, w) ∷ ws) c
        ≡ (some (write_failed what cause), (run_one w c).1)
  unfolding apply
  apply-some what w ws c cause e = rw (apply, e) refl

  -- Each write was done without an error before the next began.
  apply_ind :
      (P : Option ReconcileError × Cluster → Type 0) (what : String) (w : Wanted)
      (ws : List (String × Wanted)) (c : Cluster)
      → ((run_one w c).0 ≡ none → P (apply client libraries ws (run_one w c).1))
      → ((e : ReconcileError) → P (some e, (run_one w c).1))
      → P (apply client libraries ((what, w) ∷ ws) c)
  apply_ind P what w ws c next stop = elim (Option-cases (run_one w c).0) [
    | inl e ↦ subst P (sym (apply-none what w ws c e)) (next e)
    | inr (cause, e) ↦
        subst P (sym (apply-some what w ws c cause e)) (stop (write_failed what cause))
  ]

  pub apply-only :
      (ws : List (String × Wanted)) (k : Key) (c : Cluster)
      → Elsewhere ws k
      → client.objects.get k (apply client libraries ws c).1 ≡ client.objects.get k c
  unfolding apply
  apply-only [] k c h = refl
  apply-only ((what, w) ∷ ws) k c h =
      let same =
        reconcile_or_delete-only libraries.set_controller_reference client.objects server w k c
          h.0 in
      apply_ind
        (λ (r : Option ReconcileError × Cluster). client.objects.get k r.1 ≡ client.objects.get k c)
        what w ws c (λ e. apply-only ws k (run_one w c).1 h.1 ∙ same) (λ e. same)

  pub apply-IsSettled :
      (ws : List (String × Wanted)) (c : Cluster)
      → IsController libraries.set_controller_reference
      → All (λ w. IsStable w.1) ws
      → Apart ws
      → (apply client libraries ws c).0 ≡ none
      → AllSettled ws (apply client libraries ws c).1
  apply-IsSettled [] c controller stable apart = λ h. tt
  apply-IsSettled ((what, w) ∷ ws) c controller stable apart =
      apply_ind
        (λ (r : Option ReconcileError × Cluster). r.0 ≡ none → AllSettled ((what, w) ∷ ws) r.1) what
        w ws c
        (λ e h. (
          subst (IsSettled libraries.set_controller_reference w)
              (sym (apply-only ws w.key (run_one w c).1 apart.0))
              (reconcile_or_delete-IsSettled libraries.set_controller_reference client.objects
                server w c controller stable.0 e),
          apply-IsSettled ws (run_one w c).1 controller stable.1 apart.1 h,
        ))
        (λ e h. cc)

  run_one-again :
      (w : Wanted) (c : Cluster) (k : Key)
      → IsSettled libraries.set_controller_reference w (client.objects.get w.key c)
      → (run_one w c).0 ≡ none
      → client.objects.get k (run_one w c).1 ≡ client.objects.get k c
  run_one-again w c k settled h = elim (Bool-cases (key_eq w.key k)) [
    | inl same ↦
        subst (λ j. client.objects.get j (run_one w c).1 ≡ client.objects.get j c)
          (key_eq_sound w.key k same)
          (reconcile_or_delete-again libraries.set_controller_reference client.objects server w c
            settled h)
    | inr apart ↦
        reconcile_or_delete-only libraries.set_controller_reference client.objects server w k c
          apart
  ]

  -- Where all are settled, doing the writes again changes no object.
  pub apply-again :
      (ws : List (String × Wanted)) (c : Cluster) (k : Key)
      → AllSettled ws c
      → (apply client libraries ws c).0 ≡ none
      → client.objects.get k (apply client libraries ws c).1 ≡ client.objects.get k c
  unfolding apply
  apply-again [] c k settled = λ h. refl
  apply-again ((what, w) ∷ ws) c k settled =
      apply_ind
        (λ (r : Option ReconcileError × Cluster).
          r.0 ≡ none → client.objects.get k r.1 ≡ client.objects.get k c)
        what w ws c
        (λ e h.
          apply-again ws (run_one w c).1 k
            (All-map
              (λ v. IsSettled libraries.set_controller_reference v.1 (client.objects.get v.1.key c))
              _ ws
              (λ v.
                subst (IsSettled libraries.set_controller_reference v.1)
                  (sym (run_one-again w c v.1.key settled.0 e)))
              settled.1)
            h
          ∙ run_one-again w c k settled.0 e)
        (λ e h. cc)

  pub apply-total :
      (ws : List (String × Wanted)) (c : Cluster)
      → IsAvailable client.objects
      → ((refs : List OwnerReference)
          → (after : List OwnerReference) × (libraries.set_controller_reference refs ≡ ok after))
      → (apply client libraries ws c).0 ≡ none
  unfolding apply
  apply-total [] c available owns = refl
  apply-total ((what, w) ∷ ws) c available owns =
      let first =
        reconcile_or_delete-total libraries.set_controller_reference client.objects server w c
          available owns in
      subst (λ (r : Option ReconcileError × Cluster). r.0 ≡ none)
        (sym (apply-none what w ws c first)) (apply-total ws (run_one w c).1 available owns)
