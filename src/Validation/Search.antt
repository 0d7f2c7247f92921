-- ===== src/Validation/Search.antt =====
-- The last loop of `ValidateGraph`, which starts a search at each name that is still white.
use dataprepper_operator.Base.{
  ℕ, ◌≤◌, ◌≡◌, ◌≢◌, sym, subst, ◌⊎◌, inl, inr, String, List, [], ◌∷◌, arith, string_eq, ◌∈◌, none,
  some, length,
}
use dataprepper_operator.Validation.{
  PipelineDef, white, gray, Colors, GraphError, out_of_fuel, done, failed, names_of, dfs,
  search_all,
}
use dataprepper_operator.Validation.Walks.{Edge, Safe}
use dataprepper_operator.Validation.Finished.{AllSafe, dfs-Visited, Color-cases}
use dataprepper_operator.Validation.Cycles.{Blames, dfs-Blames}
use dataprepper_operator.Validation.Fuel.{whites-le-length, dfs-Suffices}

abbrev pub NoGray : Colors → Type 0
NoGray c = (v : String) → c v ≢ gray

module _ (adj : String → List String) (fuel : ℕ) where
  search_all-none :
      (p : PipelineDef) (ps : List PipelineDef) (c : Colors)
      → search_all adj fuel (p ∷ ps) c ≡ none
      → ((c p.name ≢ white) × (search_all adj fuel ps c ≡ none))
        ⊎ ((d : Colors) × (c p.name ≡ white)
            × (dfs adj fuel p.name c ≡ done d)
            × (search_all adj fuel ps d ≡ none))
  unfolding search_all
  search_all-none p ps c h = ground arith

  search_all-some :
      (p : PipelineDef) (ps : List PipelineDef) (c : Colors) (e : GraphError)
      → search_all adj fuel (p ∷ ps) c ≡ some e
      → (search_all adj fuel ps c ≡ some e)
        ⊎ (((c p.name ≡ white) × (dfs adj fuel p.name c ≡ failed e))
            ⊎ ((d : Colors) × (c p.name ≡ white)
                × (dfs adj fuel p.name c ≡ done d)
                × (search_all adj fuel ps d ≡ some e)))
  unfolding search_all
  search_all-some p ps c e h = ground arith

  NoGray-dfs :
      (n : String) (c d : Colors) → NoGray c → c n ≡ white → dfs adj fuel n c ≡ done d → NoGray d
  NoGray-dfs n c d g w h v e = g v (((dfs-Visited adj fuel n c d w h).grows.same_gray v).0 e)

  pub search_all-Safe :
      (ps : List PipelineDef) (c : Colors)
      → NoGray c
      → AllSafe adj c
      → search_all adj fuel ps c ≡ none
      → (n : String) → n ∈ names_of ps
      → Safe (Edge adj) n
  search_all-Safe [] c g s h n m = cc
  search_all-Safe (p ∷ ps) c g s h n m = elim (search_all-none p ps c h) [
    | inl (painted, rest) ↦ elim (string_eq.dec n p.name) [
      | yes e ↦ subst (Safe (Edge adj)) (sym e) (
          Color-cases (c p.name) (Safe (Edge adj) p.name) (λ w. absurd (painted w))
            (λ i. absurd (g p.name i)) (λ b. s p.name b))
      | no ne ↦ search_all-Safe ps c g s rest n (ground arith)
    ]
    | inr (d, w, found, rest) ↦
        let v = dfs-Visited adj fuel p.name c d w found in
        elim (string_eq.dec n p.name) [
          | yes e ↦ subst (Safe (Edge adj)) (sym e) (v.safe s p.name v.finished.0)
          | no ne ↦
              search_all-Safe ps d (NoGray-dfs p.name c d g w found) (v.safe s) rest n
                (ground arith)
        ]
  ]

  pub search_all-Blames :
      (ps : List PipelineDef) (c : Colors) (e : GraphError)
      → NoGray c
      → search_all adj fuel ps c ≡ some e
      → Blames adj e
  unfolding search_all
  search_all-Blames [] c e g h = cc
  search_all-Blames (p ∷ ps) c e g h = elim (search_all-some p ps c e h) [
    | inl rest ↦ search_all-Blames ps c e g rest
    | inr (inl (w, found)) ↦ dfs-Blames adj fuel p.name c e w (λ v i. absurd (g v i)) found
    | inr (inr (d, w, found, rest)) ↦
        search_all-Blames ps d e (NoGray-dfs p.name c d g w found) rest
  ]

  pub search_all-ne-out_of_fuel :
      (ns : List String) (closed : (a b : String) → Edge adj a b → b ∈ ns)
      → length ns ≤ fuel
      → (ps : List PipelineDef) (c : Colors) → ((n : String) → n ∈ names_of ps → n ∈ ns)
      → search_all adj fuel ps c ≢ some out_of_fuel
  unfolding search_all
  search_all-ne-out_of_fuel ns closed le [] c known h = cc
  search_all-ne-out_of_fuel ns closed le (p ∷ ps) c known h =
      let later = λ (k : String) (i : k ∈ names_of ps). known k (ground arith) in
      elim (search_all-some p ps c out_of_fuel h) [
        | inl rest ↦ search_all-ne-out_of_fuel ns closed le ps c later rest
        | inr (inl (w, found)) ↦
            dfs-Suffices adj ns closed fuel p.name c (known p.name (ground arith)) w
              (omega (arith, whites-le-length ns c)) found
        | inr (inr (d, w, found, rest)) ↦ search_all-ne-out_of_fuel ns closed le ps d later rest
      ]
