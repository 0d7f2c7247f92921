-- ===== src/Generator/Ports.antt =====
-- The ports of `SourcePorts`, internal/generator/helpers.go.
use dataprepper_operator.Base.{
  ◌≡◌, ◌≢◌, ◌<◌, ◌+◌, refl, ◌⊎◌, ◌↔◌, false, ◌||◌, List, [], ◌∷◌, ◌==◌, contains, ◌∈◌, All,
  Distinct, arith,
}
use dataprepper_operator.Base.Int.{ℤ, pos, pos_part, neg_part, int_eq, ltb_ℤ, eq_of_parts}
use dataprepper_operator.Api.Pipeline.{PipelineDefinition}
use dataprepper_operator.Generator.Helpers.{
  source_port, collect_ports, insert_sorted, sort, source_ports,
}

infix 50 ◌<ℤ◌
abbrev pub ◌<ℤ◌ : ℤ → ℤ → Type 0
a <ℤ b = pos_part a + neg_part b < pos_part b + neg_part a

abbrev pub IsIncreasing : List ℤ → Type 0
IsIncreasing [] = Unit
IsIncreasing (n ∷ ns) = All (λ m. n <ℤ m) ns × IsIncreasing ns

-- Some definition has a source on that port.
abbrev pub Serves : List PipelineDefinition → ℤ → Type 0
Serves [] n = ⊥
Serves (p ∷ ps) n = (source_port p.source ≡ n) ⊎ Serves ps n

contains-insert_sorted :
    (n k : ℤ) (ns : List ℤ) → contains (insert_sorted n ns) k ≡ (k == n || contains ns k)
unfolding insert_sorted
contains-insert_sorted n k [] = refl
contains-insert_sorted n k (m ∷ ms) = ground (arith, contains-insert_sorted n k ms)

All-insert_sorted :
    (lo n : ℤ) (ns : List ℤ)
    → lo <ℤ n
    → All (λ m. lo <ℤ m) ns
    → All (λ m. lo <ℤ m) (insert_sorted n ns)
unfolding insert_sorted
All-insert_sorted lo n [] h all = (h, tt)
All-insert_sorted lo n (m ∷ ms) h all = ground (arith, All-insert_sorted lo n ms h)

All-lt_trans : (lo n : ℤ) (ns : List ℤ) → lo <ℤ n → All (λ m. n <ℤ m) ns → All (λ m. lo <ℤ m) ns
All-lt_trans lo n [] h all = tt
All-lt_trans lo n (m ∷ ms) h all = (omega arith, All-lt_trans lo n ms h all.1)

lt_of_not_lt : (n m : ℤ) → ltb_ℤ m n ≡ false → n ≢ m → n <ℤ m
lt_of_not_lt n m h ne = ground (arith, eq_of_parts n m)

insert_sorted-IsIncreasing :
    (n : ℤ) (ns : List ℤ)
    → contains ns n ≡ false
    → IsIncreasing ns
    → IsIncreasing (insert_sorted n ns)
unfolding insert_sorted
insert_sorted-IsIncreasing n [] new inc = (tt, tt)
insert_sorted-IsIncreasing n (m ∷ ms) new inc = ground (
  arith,
  insert_sorted-IsIncreasing n ms,
  All-insert_sorted m n ms,
  lt_of_not_lt n m,
  All-lt_trans n m ms,
)

contains-sort : (k : ℤ) (ns : List ℤ) → contains (sort ns) k ≡ contains ns k
unfolding sort
contains-sort k [] = refl
contains-sort k (n ∷ ns) = ground (arith, contains-insert_sorted n k (sort ns), contains-sort k ns)

sort-IsIncreasing : (ns : List ℤ) → Distinct ns → IsIncreasing (sort ns)
unfolding sort
sort-IsIncreasing [] d = tt
sort-IsIncreasing (n ∷ ns) d =
    ground
      (arith, insert_sorted-IsIncreasing n (sort ns), contains-sort n ns, sort-IsIncreasing ns d.1)

contains-collect_ports :
    (seen : List ℤ) (ps : List PipelineDefinition) (n : ℤ)
    → (n ∈ collect_ports seen ps) ↔ (Serves ps n × (n ≢ pos 0) × (contains seen n ≡ false))
unfolding collect_ports
contains-collect_ports seen [] n = (λ h. cc, λ h. absurd h.0)
contains-collect_ports seen (p ∷ ps) n = ground (
  arith,
  contains-collect_ports seen ps n,
  contains-collect_ports (source_port p.source ∷ seen) ps n,
)

collect_ports-Distinct :
    (seen : List ℤ) (ps : List PipelineDefinition) → Distinct (collect_ports seen ps)
unfolding collect_ports
collect_ports-Distinct seen [] = tt
collect_ports-Distinct seen (p ∷ ps) =
    let port = source_port p.source in
    ground (
      arith,
      collect_ports-Distinct seen ps,
      collect_ports-Distinct (port ∷ seen) ps,
      contains-collect_ports (port ∷ seen) ps port,
    )

-- The ports increase strictly, and they are those of the HTTP and OTel sources, less 0.
pub source_ports_lem :
    (ps : List PipelineDefinition)
    → IsIncreasing (source_ports ps)
      × ((n : ℤ) → (n ∈ source_ports ps) ↔ (Serves ps n × (n ≢ pos 0)))
unfolding source_ports
source_ports_lem ps = (
  sort-IsIncreasing (collect_ports [] ps) (collect_ports-Distinct [] ps),
  λ n. ground (arith, contains-sort n (collect_ports [] ps), contains-collect_ports [] ps n),
)
