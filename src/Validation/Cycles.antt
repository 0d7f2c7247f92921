-- ===== src/Validation/Cycles.antt =====
-- A search that fails names an edge that lies on a cycle.
use dataprepper_operator.Base.{
  ℕ, zero, suc, ◌≡◌, subst, sym, ◌⊎◌, inl, inr, String, List, [], ◌∷◌, arith, string_eq, ◌∈◌,
}
use dataprepper_operator.Validation.{
  white, gray, black, Colors, paint, GraphError, cycle, out_of_fuel, duplicate, unknown_source,
  unknown_sink, Outcome, done, failed, visit, blacken, dfs,
}
use dataprepper_operator.Validation.Walks.{Edge, Reach, here, Reach-snoc}
use dataprepper_operator.Validation.Finished.{Searches, dfs-Visited}

module _ (adj : String → List String) where
  -- What an error of the search says of the graph.
  abbrev pub Blames : GraphError → Type 0
  Blames (cycle a b) = Edge adj a b × Reach (Edge adj) b a
  Blames out_of_fuel = Unit
  Blames (duplicate _) = ⊥
  Blames (unknown_source _ _) = ⊥
  Blames (unknown_sink _ _) = ⊥

  -- The grey names are those of the calls that have not returned.
  abbrev pub Above : Colors → String → Type 0
  Above c n = (g : String) → c g ≡ gray → Reach (Edge adj) g n

  abbrev pub FailsByCycle : (String → Colors → Outcome) → Type 0
  FailsByCycle rec =
      (n : String) (c : Colors) (e : GraphError)
      → c n ≡ white
      → Above c n
      → rec n c ≡ failed e
      → Blames e

  pub visit-eq-failed :
      (rec : String → Colors → Outcome) (n m : String) (ms : List String) (c : Colors)
      (e : GraphError)
      → visit rec n (m ∷ ms) c ≡ failed e
      → ((c m ≡ gray) × (e ≡ cycle n m))
        ⊎ (((c m ≡ black) × (visit rec n ms c ≡ failed e))
            ⊎ (((c m ≡ white) × (rec m c ≡ failed e))
                ⊎ ((d : Colors) × (c m ≡ white)
                    × (rec m c ≡ done d)
                    × (visit rec n ms d ≡ failed e))))
  unfolding visit
  visit-eq-failed rec n m ms c e h = ground arith

  visit-nil-failed :
      (rec : String → Colors → Outcome) (n : String) (c : Colors) (e : GraphError)
      → visit rec n [] c ≡ failed e
      → ⊥
  unfolding visit
  visit-nil-failed rec n c e h = cc

  visit-Blames :
      (rec : String → Colors → Outcome) (n : String) (ns : List String) (c : Colors)
      (e : GraphError)
      → Searches adj rec
      → FailsByCycle rec
      → ((m : String) → m ∈ ns → Edge adj n m)
      → Above c n
      → visit rec n ns c ≡ failed e
      → Blames e
  visit-Blames rec n [] c e s f edges above h = absurd (visit-nil-failed rec n c e h)
  visit-Blames rec n (m ∷ ms) c e s f edges above h =
      let to_m : Edge adj n m = edges m (ground arith) in
      let later = λ (k : String) (i : k ∈ ms). edges k (ground arith) in
      elim (visit-eq-failed rec n m ms c e h) [
        | inl (g, blame) ↦ subst Blames (sym blame) (to_m, above m g)
        | inr (inl (b, rest)) ↦ visit-Blames rec n ms c e s f later above rest
        | inr (inr (inl (w, found))) ↦
            f m c e w (λ g i. Reach-snoc (Edge adj) (above g i) to_m) found
        | inr (inr (inr (d, w, found, rest))) ↦
            let grown = (s m c d w found).grows in
            visit-Blames rec n ms d e s f later (λ g i. above g ((grown.same_gray g).0 i)) rest
      ]

  blacken-eq-failed :
      (n : String) (o : Outcome) (e : GraphError) → blacken n o ≡ failed e → o ≡ failed e
  blacken-eq-failed n (done d) e h = cc
  blacken-eq-failed n (failed e') e h = h

  pub dfs-Blames : (fuel : ℕ) → FailsByCycle (dfs adj fuel)
  unfolding dfs
  dfs-Blames zero n c e w above h = subst Blames (failed-injective h) tt
    where
      failed-injective : failed out_of_fuel ≡ failed e → out_of_fuel ≡ e
      failed-injective p = cc
  dfs-Blames (suc fuel) n c e w above h =
      visit-Blames (dfs adj fuel) n (adj n) (paint c n gray) e (dfs-Visited adj fuel)
        (dfs-Blames fuel) (λ m i. i) painted (blacken-eq-failed n _ e h)
    where
      painted : Above (paint c n gray) n
      painted g i = elim (string_eq.dec n g) [
        | yes same ↦ subst (λ k. Reach (Edge adj) k n) same here
        | no differ ↦ above g (ground arith)
      ]
