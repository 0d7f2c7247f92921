-- ===== src/Validation/Fuel.antt =====
-- As many levels of recursion as there are names are enough for the search.
use dataprepper_operator.Base.{
  ℕ, zero, suc, ◌≤◌, ◌<◌, ◌≡◌, ◌≢◌, inl, inr, String, Bool, true, false, List, [], ◌∷◌, arith,
  string_eq, if◌then◌else◌, ◌∈◌, length,
}
use dataprepper_operator.Validation.{
  Color, white, gray, black, Colors, paint, out_of_fuel, Outcome, failed, visit, dfs,
}
use dataprepper_operator.Validation.Walks.{Edge}
use dataprepper_operator.Validation.Finished.{Searches, Grows-white, dfs-Visited}
use dataprepper_operator.Validation.Cycles.{visit-eq-failed}

abbrev pub is_white : Color → Bool
is_white white = true
is_white gray = false
is_white black = false

-- The names that were never painted.
abbrev pub whites : List String → Colors → ℕ
whites [] c = 0
whites (n ∷ ns) c = if is_white (c n) then suc (whites ns c) else whites ns c

whites_mono :
    (ns : List String) (c d : Colors)
    → ((v : String) → d v ≡ white → c v ≡ white)
    → whites ns d ≤ whites ns c
whites_mono [] c d h = omega arith
whites_mono (n ∷ ns) c d h = ground (arith, whites_mono ns c d h, h n)

whites-paint :
    (ns : List String) (c : Colors) (n : String)
    → n ∈ ns
    → c n ≡ white
    → whites ns (paint c n gray) < whites ns c
whites-paint [] c n m w = cc
whites-paint (k ∷ ns) c n m w =
    ground (arith, whites-paint ns c n, whites_mono ns c (paint c n gray) (λ v e. ground arith))

pub whites-le-length : (ns : List String) (c : Colors) → whites ns c ≤ length ns
whites-le-length [] c = omega arith
whites-le-length (n ∷ ns) c = ground (arith, whites-le-length ns c)

module _ (adj : String → List String) (ns : List String)
    (closed : (a b : String) → Edge adj a b → b ∈ ns) where
  abbrev Suffices : ℕ → (String → Colors → Outcome) → Type 0
  Suffices fuel rec =
      (n : String) (c : Colors)
      → n ∈ ns
      → c n ≡ white
      → whites ns c ≤ fuel
      → rec n c ≢ failed out_of_fuel

  visit-Suffices :
      (fuel : ℕ) (rec : String → Colors → Outcome) (n : String) (ms : List String) (c : Colors)
      → Searches adj rec
      → Suffices fuel rec
      → ((m : String) → m ∈ ms → m ∈ ns)
      → whites ns c ≤ fuel
      → visit rec n ms c ≢ failed out_of_fuel
  unfolding visit
  visit-Suffices fuel rec n [] c s f known le h = cc
  visit-Suffices fuel rec n (m ∷ ms) c s f known le h =
      let later = λ (k : String) (i : k ∈ ms). known k (ground arith) in
      elim (visit-eq-failed adj rec n m ms c out_of_fuel h) [
        | inl (g, blame) ↦ cc
        | inr (inl (b, rest)) ↦ visit-Suffices fuel rec n ms c s f later le rest
        | inr (inr (inl (w, found))) ↦ f m c (known m (ground arith)) w le found
        | inr (inr (inr (d, w, found, rest))) ↦
            let grown = (s m c d w found).grows in
            visit-Suffices fuel rec n ms d s f later
              (omega (arith, whites_mono ns c d (Grows-white grown))) rest
      ]

  pub dfs-Suffices : (fuel : ℕ) → Suffices fuel (dfs adj fuel)
  unfolding dfs
  dfs-Suffices zero n c i w le h = absurd (omega (arith, whites-paint ns c n i w))
  dfs-Suffices (suc fuel) n c i w le h =
      visit-Suffices fuel (dfs adj fuel) n (adj n) (paint c n gray) (dfs-Visited adj fuel)
        (dfs-Suffices fuel) (λ m e. closed n m e) (omega (arith, whites-paint ns c n i w))
        (ground arith)
