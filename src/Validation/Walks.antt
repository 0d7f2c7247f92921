-- ===== src/Validation/Walks.antt =====
-- Walks in the sink graph that internal/validation/graph.go searches.
use dataprepper_operator.Base.{String, List, ◌∈◌, string_eq}

abbrev pub Edge : (String → List String) → String → String → Type 0
Edge adj a b = b ∈ adj a

module _ (E : String → String → Type 0) where
  pub data Reach : String → String → Type 0 where
    here : {a : String} → Reach a a
    step : {a b c : String} → E a b → Reach b c → Reach a c

  -- No edge leads from a name to one from which it can be reached.
  abbrev pub Acyclic : Type 0
  Acyclic = (a b : String) → E a b → ¬ (Reach b a)

  -- Every walk from the name ends.
  pub data Safe : String → Type 0 where
    intro : (a : String) → ((b : String) → E a b → Safe b) → Safe a

  pub Reach-snoc : {a b c : String} → Reach a b → E b c → Reach a c
  Reach-snoc here e = step e here
  Reach-snoc (step e' r) e = step e' (Reach-snoc r e)

  pub Safe-not-cycle : {a b : String} → Safe a → E a b → Reach b a → ⊥
  Safe-not-cycle {b} (intro _ f) e here = Safe-not-cycle (f b e) e here
  Safe-not-cycle {b} (intro _ f) e (step e' r) = Safe-not-cycle (f b e) e' (Reach-snoc r e)

module _ (E F : String → String → Type 0) (sub : (a b : String) → E a b → F a b) where
  pub Reach-mono : {a b : String} → Reach E a b → Reach F a b
  Reach-mono here = here
  Reach-mono (step {a} {b} e r) = step (sub a b e) (Reach-mono r)

  pub Acyclic-mono : Acyclic F → Acyclic E
  Acyclic-mono h a b e r = h a b (sub a b e) (Reach-mono r)
