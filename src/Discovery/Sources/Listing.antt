-- ===== src/Discovery/Sources/Listing.antt =====
-- The prefixes of a bucket at a depth, which the S3 discoverer lists.
use dataprepper_operator.Base.{
  ℕ, zero, suc, String, string_eq, contains-append, ◌∈◌, ◌++◌, ◌≡◌, ◌↔◌, ◌⊎◌, inl, inr, refl, subst,
  arith, none, List, [], ◌∷◌,
}
use dataprepper_operator.Base.Result.{Result, ok}
use dataprepper_operator.Discovery.Sources.{
  DiscoveryError, S3Client, list_prefixes, list_checked, append_each, list_at_depth,
}

-- `q` lies `suc n` steps below `p`, where `children` lists the prefixes one step below.
pub data Descends (children : String → List String) : ℕ → String → String → Type 0 where
  child : {p q : String} → q ∈ children p → Descends children 0 p q
  below :
      {n : ℕ} {p q : String} (m : String)
      → m ∈ children p
      → Descends children n m q
      → Descends children (suc n) p q

of_child :
    {children : String → List String} (p q : String) → Descends children 0 p q → q ∈ children p
of_child p q (child h) = h

of_below :
    {children : String → List String} (n : ℕ) (p q : String)
    → Descends children (suc n) p q
    → (m : String) × (m ∈ children p) × Descends children n m q
of_below n p q (below m h r) = (m, h, r)

-- The context of the calls does not end, and each listing is that of `children`.
pub record Lists (client : S3Client) (bucket : String) (children : String → List String)
    : Type 0 where
  pub lists : (p : String) → client.list_prefixes bucket p "/" ≡ ok (children p)
  pub goes_on : (p : String) → client.ctx_err p ≡ none

Lists-list_checked :
    (client : S3Client) (bucket : String) (children : String → List String)
    → Lists client bucket children
    → (p : String) → list_checked client bucket p ≡ ok (children p)
unfolding list_checked list_prefixes
Lists-list_checked client bucket children h p =
    rw (list_checked, list_prefixes, h.goes_on p, h.lists p) refl

pub mem_split : (q x : String) (xs : List String) → q ∈ x ∷ xs → (q ≡ x) ⊎ (q ∈ xs)
mem_split q x xs h = ground (arith, h)

pub mem_here : (x : String) (xs : List String) → x ∈ x ∷ xs
mem_here x xs = ground arith

pub mem_there : (q x : String) (xs : List String) → q ∈ xs → q ∈ x ∷ xs
mem_there q x xs h = ground (arith, h)

mem_append_iff : (q : String) (xs ys : List String) → (q ∈ xs ++ ys) ↔ ((q ∈ xs) ⊎ (q ∈ ys))
mem_append_iff q xs ys = ground (arith, contains-append xs ys q)

module _ (R : String → String → Type 0) (list : String → Result DiscoveryError (List String)) where
  -- The listing of a prefix has exactly the names in the relation with it.
  abbrev ListsRelated : String → Type 0
  ListsRelated p =
      (found : List String) × (list p ≡ ok found) × ((q : String) → (q ∈ found) ↔ R p q)

  append_each_iff :
      (client : S3Client) (bucket : String) (ps : List String)
      → ((p : String) → ListsRelated p)
      → (found : List String) × (append_each client bucket list ps ≡ ok found)
        × ((q : String) → (q ∈ found) ↔ ((p : String) × (p ∈ ps) × R p q))
  append_each_iff client bucket [] h = ([], refl, λ q. (λ e. absurd cc, λ r. absurd (cc r.1)))
  append_each_iff client bucket (p ∷ ps) h =
      let (sub, listed, related) = h p in
      let (rest, appended, all) = append_each_iff client bucket ps h in
      (
        sub ++ rest,
        rw (listed, appended) refl,
        λ q. (
          λ e. elim ((mem_append_iff q sub rest).0 e) [
            | inl here ↦ (p, mem_here p ps, (related q).0 here)
            | inr later ↦ let (m, mem, r) = (all q).0 later in (m, mem_there m p ps mem, r)
          ],
          λ r. (mem_append_iff q sub rest).1 (elim (mem_split r.0 p ps r.1) [
            | inl same ↦ inl ((related q).1 (subst (λ m. R m q) same r.2))
            | inr later ↦ inr ((all q).1 (r.0, later, r.2))
          ]),
        ),
      )

module _ (client : S3Client) (bucket : String) (children : String → List String)
    (answers : Lists client bucket children) where
  pub list_at_depth-Descends :
      (n : ℕ) (p : String)
      → (found : List String) × (list_at_depth client bucket n p ≡ ok found)
        × ((q : String) → (q ∈ found) ↔ Descends children n p q)
  unfolding list_at_depth
  list_at_depth-Descends zero p = (
    children p,
    Lists-list_checked client bucket children answers p,
    λ q. (λ h. child h, λ h. of_child p q h),
  )
  list_at_depth-Descends (suc n) p =
      let (found, appended, all) =
        append_each_iff (Descends children n) (list_at_depth client bucket n) client bucket
          (children p) (list_at_depth-Descends n) in
      (
        found,
        rw (list_at_depth, Lists-list_checked client bucket children answers p) appended,
        λ q. (
          λ h. let (m, mem, r) = (all q).0 h in below m mem r,
          λ h. (all q).1 (of_below n p q h),
        ),
      )
