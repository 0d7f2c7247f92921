-- ===== src/Discovery/Names/Laws.antt =====
-- A sanitized name is a name that Kubernetes accepts, and such names are kept.
use dataprepper_operator.Base.{
  ℕ, zero, suc, nat_eq, ◌≤◌, ◌<◌, ◌≡◌, ◌≢◌, refl, ap, sym, ◌∙◌, subst, arith, String, true, ltb,
  ◌==◌, List, [], ◌∷◌, map, length, take, length-take, All, if_ind,
}
use dataprepper_operator.Discovery.Names.{
  dash, is_dns_rune, dns_rune, trim_left, or_drop, trim_right, cut, or_unnamed, sanitize_runes,
  runes, runes-of_runes, sanitize_name,
}

abbrev IsDnsRune : ℕ → Type 0
IsDnsRune r = is_dns_rune r ≡ true

-- Neither end of the text is a dash.
abbrev Starts : List ℕ → Type 0
Starts [] = Unit
Starts (r ∷ rs) = r ≢ dash

abbrev Ends : List ℕ → Type 0
Ends [] = Unit
Ends (r ∷ []) = r ≢ dash
Ends (r ∷ s ∷ rs) = Ends (s ∷ rs)

-- A DNS label of the code points, with the length of a subdomain.
pub record IsName (rs : List ℕ) : Type 0 where
  pub characters : All IsDnsRune rs
  pub starts : Starts rs
  pub ends : Ends rs
  pub some_rune : 1 ≤ length rs
  pub short : length rs ≤ 253

dns_rune-IsDnsRune : (r : ℕ) → IsDnsRune (dns_rune r)
unfolding dns_rune
dns_rune-IsDnsRune r = ground arith

dns_rune_id : (r : ℕ) → IsDnsRune r → dns_rune r ≡ r
unfolding dns_rune
dns_rune_id r h = ground arith

map-dns : (rs : List ℕ) → All IsDnsRune (map dns_rune rs)
map-dns [] = tt
map-dns (r ∷ rs) = (dns_rune-IsDnsRune r, map-dns rs)

map-dns_id : (rs : List ℕ) → All IsDnsRune rs → map dns_rune rs ≡ rs
map-dns_id [] h = refl
map-dns_id (r ∷ rs) h = ground (arith, dns_rune_id r h.0, map-dns_id rs h.1)

module _ (P : ℕ → Type 0) where
  trim_left-All : (rs : List ℕ) → All P rs → All P (trim_left rs)
  unfolding trim_left
  trim_left-All [] h = tt
  trim_left-All (r ∷ rs) h = if_ind (All P) (r == dash) _ _ (λ _. trim_left-All rs h.1) (λ _. h)

  or_drop-All : (r : ℕ) (rs : List ℕ) → P r → All P rs → All P (or_drop r rs)
  or_drop-All r [] p h = if_ind (All P) (r == dash) _ _ (λ _. tt) (λ _. (p, tt))
  or_drop-All r (s ∷ rs) p h = (p, h)

  trim_right-All : (rs : List ℕ) → All P rs → All P (trim_right rs)
  unfolding trim_right
  trim_right-All [] h = tt
  trim_right-All (r ∷ rs) h = or_drop-All r (trim_right rs) h.0 (trim_right-All rs h.1)

  take-All : (n : ℕ) (rs : List ℕ) → All P rs → All P (take n rs)
  take-All zero rs h = tt
  take-All (suc n) [] h = tt
  take-All (suc n) (r ∷ rs) h = (h.0, take-All n rs h.1)

  cut-All : (rs : List ℕ) → All P rs → All P (cut rs)
  unfolding cut
  cut-All rs h =
      if_ind (All P) (ltb 253 (length rs)) _ _ (λ _. trim_right-All _ (take-All 253 rs h)) (λ _. h)

trim_left-Starts : (rs : List ℕ) → Starts (trim_left rs)
unfolding trim_left
trim_left-Starts [] = tt
trim_left-Starts (r ∷ rs) =
    if_ind Starts (r == dash) _ _ (λ _. trim_left-Starts rs) (λ h. ground arith)

or_drop-Starts : (r : ℕ) (rs : List ℕ) → r ≢ dash → Starts (or_drop r rs)
or_drop-Starts r [] h = ground arith
or_drop-Starts r (s ∷ rs) h = h

trim_right-Starts : (rs : List ℕ) → Starts rs → Starts (trim_right rs)
unfolding trim_right
trim_right-Starts [] h = tt
trim_right-Starts (r ∷ rs) h = or_drop-Starts r (trim_right rs) h

take-Starts : (n : ℕ) (rs : List ℕ) → Starts rs → Starts (take n rs)
take-Starts zero rs h = tt
take-Starts (suc n) [] h = tt
take-Starts (suc n) (r ∷ rs) h = h

or_drop-Ends : (r : ℕ) (rs : List ℕ) → Ends rs → Ends (or_drop r rs)
or_drop-Ends r [] h = if_ind Ends (r == dash) _ _ (λ _. tt) (λ e. ground arith)
or_drop-Ends r (s ∷ rs) h = h

trim_right-Ends : (rs : List ℕ) → Ends (trim_right rs)
unfolding trim_right
trim_right-Ends [] = tt
trim_right-Ends (r ∷ rs) = or_drop-Ends r (trim_right rs) (trim_right-Ends rs)

or_drop-length : (r : ℕ) (rs : List ℕ) → length (or_drop r rs) ≤ suc (length rs)
or_drop-length r [] = ground arith
or_drop-length r (s ∷ rs) = omega arith

trim_right-length : (rs : List ℕ) → length (trim_right rs) ≤ length rs
unfolding trim_right
trim_right-length [] = omega arith
trim_right-length (r ∷ rs) = omega (arith, or_drop-length r (trim_right rs), trim_right-length rs)

trim_left_id : (rs : List ℕ) → Starts rs → trim_left rs ≡ rs
unfolding trim_left
trim_left_id [] h = refl
trim_left_id (r ∷ rs) h = ground arith

trim_right_id : (rs : List ℕ) → Ends rs → trim_right rs ≡ rs
unfolding trim_right
trim_right_id [] h = refl
trim_right_id (r ∷ []) h = ground arith
trim_right_id (r ∷ s ∷ rs) h = ap (or_drop r) (trim_right_id (s ∷ rs) h)

cut-short : (rs : List ℕ) → length (cut rs) ≤ 253
unfolding cut
cut-short rs =
    if_ind (λ ys. length ys ≤ 253) (ltb 253 (length rs)) (trim_right (take 253 rs)) rs
      (λ _. omega (arith, trim_right-length (take 253 rs), length-take 253 rs)) (λ h. ground arith)

cut-Ends : (rs : List ℕ) → Ends rs → Ends (cut rs)
unfolding cut
cut-Ends rs h = if_ind Ends (ltb 253 (length rs)) _ _ (λ _. trim_right-Ends (take 253 rs)) (λ _. h)

cut-Starts : (rs : List ℕ) → Starts rs → Starts (cut rs)
unfolding cut
cut-Starts rs h =
    if_ind Starts (ltb 253 (length rs)) _ _
      (λ _. trim_right-Starts (take 253 rs) (take-Starts 253 rs h)) (λ _. h)

or_unnamed-IsName :
    (rs : List ℕ)
    → All IsDnsRune rs
    → Starts rs
    → Ends rs
    → length rs ≤ 253
    → IsName (or_unnamed rs)
or_unnamed-IsName [] a s e l = record {
  characters = (refl, (refl, (refl, (refl, (refl, (refl, (refl, tt)))))));
  starts = omega arith;
  ends = omega arith;
  some_rune = omega arith;
  short = omega arith;
}
or_unnamed-IsName (r ∷ rs) a s e l = record {
  characters = a;
  starts = s;
  ends = e;
  some_rune = omega arith;
  short = l;
}

sanitize_runes-IsName : (rs : List ℕ) → IsName (sanitize_runes rs)
unfolding sanitize_runes
sanitize_runes-IsName rs =
    let mapped = map dns_rune rs in
    or_unnamed-IsName (cut (trim_right (trim_left mapped)))
      (cut-All IsDnsRune (trim_right (trim_left mapped))
        (trim_right-All IsDnsRune (trim_left mapped) (trim_left-All IsDnsRune mapped (map-dns rs))))
      (cut-Starts (trim_right (trim_left mapped))
        (trim_right-Starts (trim_left mapped) (trim_left-Starts mapped)))
      (cut-Ends (trim_right (trim_left mapped)) (trim_right-Ends (trim_left mapped)))
      (cut-short (trim_right (trim_left mapped)))

or_unnamed_id : (rs : List ℕ) → 1 ≤ length rs → or_unnamed rs ≡ rs
or_unnamed_id [] h = ground arith
or_unnamed_id (r ∷ rs) h = refl

cut_id : (rs : List ℕ) → length rs ≤ 253 → cut rs ≡ rs
unfolding cut
cut_id rs h = ground arith

sanitize_runes_id : (rs : List ℕ) → IsName rs → sanitize_runes rs ≡ rs
unfolding sanitize_runes
sanitize_runes_id rs n =
    rw
      (
        map-dns_id rs n.characters,
        trim_left_id rs n.starts,
        trim_right_id rs n.ends,
        cut_id rs n.short,
      )
      (or_unnamed_id rs n.some_rune)

dns-low : (rs : List ℕ) → All IsDnsRune rs → All (λ r. r < 55296) rs
dns-low [] h = tt
dns-low (r ∷ rs) h = let ok : is_dns_rune r ≡ true = h.0 in (ground arith, dns-low rs h.1)

runes-sanitize_name : (s : String) → runes (sanitize_name s) ≡ sanitize_runes (runes s)
unfolding sanitize_name
runes-sanitize_name s = runes-of_runes _ (dns-low _ (sanitize_runes-IsName (runes s)).characters)

-- Whatever the text, the sanitized name consists of lower-case letters, digits and dashes, has no
-- dash at either end, and has between 1 and 253 characters.
pub sanitize_name-IsName : (s : String) → IsName (runes (sanitize_name s))
sanitize_name-IsName s =
    subst IsName (sym (runes-sanitize_name s)) (sanitize_runes-IsName (runes s))

-- A text that is such a name already is kept, so that sanitizing twice changes nothing.
pub sanitize_name_id :
    (s : String)
    → (IsName (runes s) → runes (sanitize_name s) ≡ runes s)
      × (runes (sanitize_name (sanitize_name s)) ≡ runes (sanitize_name s))
sanitize_name_id s = (
  λ n. runes-sanitize_name s ∙ sanitize_runes_id (runes s) n,
  runes-sanitize_name (sanitize_name s) ∙ sanitize_runes_id _ (sanitize_name-IsName s),
)
