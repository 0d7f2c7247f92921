-- ===== src/Validation/Finished.antt =====
-- What a search that succeeds leaves in `color`.
use dataprepper_operator.Base.{
  ℕ, zero, suc, ◌≡◌, refl, ◌↔◌, subst, String, List, [], ◌∷◌, arith, string_eq, All, All-mem, ◌⊎◌,
  inl, inr,
}
use dataprepper_operator.Validation.{
  Color, white, gray, black, Colors, paint, Outcome, done, failed, visit, blacken, dfs,
}
use dataprepper_operator.Validation.Walks.{Edge, Safe}

pub Color-cases : (c : Color) (P : Type 0) → (c ≡ white → P) → (c ≡ gray → P) → (c ≡ black → P) → P
Color-cases white P w g b = w refl
Color-cases gray P w g b = g refl
Color-cases black P w g b = b refl

-- How the colours `c'` after a search relate to those before it.
pub record Grows (c c' : Colors) : Type 0 where
  pub keeps_black : (v : String) → c v ≡ black → c' v ≡ black
  pub same_gray : (v : String) → (c' v ≡ gray) ↔ (c v ≡ gray)

pub Grows-refl : (c : Colors) → Grows c c
Grows-refl c = record { keeps_black = λ v e. e; same_gray = λ v. (λ e. e, λ e. e) }

pub Grows-trans : {c d e : Colors} → Grows c d → Grows d e → Grows c e
Grows-trans g h = record {
  keeps_black = λ v b. h.keeps_black v (g.keeps_black v b);
  same_gray = λ v.
      (λ e. (g.same_gray v).0 ((h.same_gray v).0 e), λ e. (h.same_gray v).1 ((g.same_gray v).1 e));
}

pub Grows-white : {c c' : Colors} → Grows c c' → (v : String) → c' v ≡ white → c v ≡ white
Grows-white {c} {c'} g v w =
    Color-cases (c v) (c v ≡ white) (λ e. e) (λ e. cc ((g.same_gray v).1 e))
      (λ e. cc (g.keeps_black v e))

-- A search that paints `n` gray, keeps the colours, and blackens `n` at the end.
pub Grows-painted :
    (n : String) (c d : Colors) → c n ≡ white → Grows (paint c n gray) d → Grows c (paint d n black)
Grows-painted n c d w g = record {
  keeps_black = λ v b. ground (arith, g.keeps_black v);
  same_gray = λ v. ground (arith, g.same_gray v);
}

module _ (adj : String → List String) where
  abbrev pub AllSafe : Colors → Type 0
  AllSafe c = (v : String) → c v ≡ black → Safe (Edge adj) v

  -- What a loop over some names keeps.
  pub record Visited (ns : List String) (c c' : Colors) : Type 0 where
    pub grows : Grows c c'
    pub finished : All (λ v. c' v ≡ black) ns
    pub safe : AllSafe c → AllSafe c'

  abbrev pub Searches : (String → Colors → Outcome) → Type 0
  Searches rec =
      (n : String) (c c' : Colors) → c n ≡ white → rec n c ≡ done c' → Visited (n ∷ []) c c'

  Visited-cons :
      (m : String) (ms : List String) (c d e : Colors)
      → Visited (m ∷ []) c d
      → Visited ms d e
      → Visited (m ∷ ms) c e
  Visited-cons m ms c d e v w = record {
    grows = Grows-trans v.grows w.grows;
    finished = (w.grows.keeps_black m v.finished.0, w.finished);
    safe = λ s. w.safe (v.safe s);
  }

  visit-eq-done :
      (rec : String → Colors → Outcome) (n m : String) (ms : List String) (c c' : Colors)
      → visit rec n (m ∷ ms) c ≡ done c'
      → ((c m ≡ black) × (visit rec n ms c ≡ done c'))
        ⊎ ((d : Colors) × (c m ≡ white) × (rec m c ≡ done d) × (visit rec n ms d ≡ done c'))
  unfolding visit
  visit-eq-done rec n m ms c c' h = ground arith

  visit-nil :
      (rec : String → Colors → Outcome) (n : String) (c c' : Colors)
      → visit rec n [] c ≡ done c'
      → c ≡ c'
  unfolding visit
  visit-nil rec n c c' h = ground arith

  visit-Visited :
      (rec : String → Colors → Outcome) (n : String) (ns : List String) (c c' : Colors)
      → Searches rec
      → visit rec n ns c ≡ done c'
      → Visited ns c c'
  visit-Visited rec n [] c c' ih h =
      subst (Visited [] c) (visit-nil rec n c c' h)
        (record { grows = Grows-refl c; finished = tt; safe = λ s. s })
  visit-Visited rec n (m ∷ ms) c c' ih h = elim (visit-eq-done rec n m ms c c' h) [
    | inl (b, rest) ↦
        let v = visit-Visited rec n ms c c' ih rest in
        record { grows = v.grows; finished = (v.grows.keeps_black m b, v.finished); safe = v.safe }
    | inr (d, w, found, rest) ↦
        Visited-cons m ms c d c' (ih m c d w found) (visit-Visited rec n ms d c' ih rest)
  ]

  blacken-eq-done :
      (n : String) (o : Outcome) (c' : Colors)
      → blacken n o ≡ done c'
      → (d : Colors) × (o ≡ done d) × (paint d n black ≡ c')
  blacken-eq-done n (done d) c' h = (d, refl, ground arith)
  blacken-eq-done n (failed e) c' h = cc

  -- Once all that `n` feeds is safe, so is `n`.
  Visited-blacken :
      (n : String) (c d : Colors)
      → c n ≡ white
      → Visited (adj n) (paint c n gray) d
      → Visited (n ∷ []) c (paint d n black)
  Visited-blacken n c d w v = record {
    grows = Grows-painted n c d w v.grows;
    finished = (ground arith, tt);
    safe = λ s.
        let after = v.safe (λ u b. s u (ground arith)) in
        let at_n : Safe (Edge adj) n =
          Safe.intro n (λ b e. after b (All-mem (λ u. d u ≡ black) (adj n) b v.finished e)) in
        λ u b. elim (string_eq.dec n u) [
          | yes e ↦ subst (Safe (Edge adj)) e at_n
          | no ne ↦ after u (ground arith)
        ];
  }

  pub dfs-Visited : (fuel : ℕ) → Searches (dfs adj fuel)
  unfolding dfs
  dfs-Visited zero n c c' w h = cc
  dfs-Visited (suc fuel) n c c' w h =
      let (d, found, e) =
        blacken-eq-done n (visit (dfs adj fuel) n (adj n) (paint c n gray)) c' h in
      subst (Visited (n ∷ []) c) e (
        Visited-blacken n c d w
          (visit-Visited (dfs adj fuel) n (adj n) (paint c n gray) d (dfs-Visited fuel) found))
