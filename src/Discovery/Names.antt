-- ===== src/Discovery/Names.antt =====
-- The names of the generated pipelines: `sanitizeName`, over the code points of a text.
pub mod Laws
use Prim.Native.Char.{Char, char, code, IsScalar}
use Prim.Native.Nat.{compare, Ordering}
use Prim.Native.String.{[] as []ₛ, ◌∷◌ as ◌∷ₛ◌}
use dataprepper_operator.Base.{
  ℕ, ◌+◌, ◌<◌, ◌≡◌, refl, ap, arith, String, Bool, ◌&&◌, ◌||◌, leb, ltb, if◌then◌else◌, ◌==◌,
  nat_eq, List, [], ◌∷◌, map, length, take, All,
}

abbrev pub dash : ℕ
dash = 45

-- The code points of "unnamed".
abbrev pub unnamed : List ℕ
unnamed = 117 ∷ 110 ∷ 110 ∷ 97 ∷ 109 ∷ 101 ∷ 100 ∷ []

abbrev pub is_dns_rune : ℕ → Bool
is_dns_rune r = leb 97 r && leb r 122 || (leb 48 r && leb r 57 || r == dash)

-- The function that `strings.Map` applies to each rune.
unfoldable pub dns_rune : ℕ → ℕ
dns_rune r = if is_dns_rune r then r else if leb 65 r && leb r 90 then r + 32 else dash

unfoldable pub trim_left : List ℕ → List ℕ
trim_left [] = []
trim_left (r ∷ rs) = let rest = trim_left rs in if r == dash then rest else r ∷ rs

abbrev pub or_drop : ℕ → List ℕ → List ℕ
or_drop r [] = if r == dash then [] else r ∷ []
or_drop r (s ∷ rest) = r ∷ s ∷ rest

unfoldable pub trim_right : List ℕ → List ℕ
trim_right [] = []
trim_right (r ∷ rs) = or_drop r (trim_right rs)

-- A name of at most 253 bytes. Each rune is one byte here.
unfoldable pub cut : List ℕ → List ℕ
unfolding trim_right
cut rs = if ltb 253 (length rs) then trim_right (take 253 rs) else rs

abbrev pub or_unnamed : List ℕ → List ℕ
or_unnamed [] = unnamed
or_unnamed (r ∷ rs) = r ∷ rs

unfoldable pub sanitize_runes : List ℕ → List ℕ
unfolding dns_rune trim_left trim_right cut
sanitize_runes rs = or_unnamed (cut (trim_right (trim_left (map dns_rune rs))))

unfoldable pub runes : String → List ℕ
runes []ₛ = []
runes (c ∷ₛ s) = code c ∷ runes s

low : (n : ℕ) → compare n 55296 ≡ Ordering.lt → IsScalar n
low n h = rw h tt

of_ordering : (n : ℕ) (o : Ordering) → compare n 55296 ≡ o → Char
unfolding low
of_ordering n Ordering.lt h = char n (low n h)
of_ordering n _ h = "-"

pub of_rune : ℕ → Char
unfolding of_ordering
of_rune n = of_ordering n (compare n 55296) refl

pub of_runes : List ℕ → String
unfolding of_rune
of_runes [] = ""
of_runes (r ∷ rs) = of_rune r ∷ₛ of_runes rs

of_ordering-code :
    (n : ℕ) (o : Ordering) (h : compare n 55296 ≡ o) → n < 55296 → code (of_ordering n o h) ≡ n
unfolding of_ordering
of_ordering-code n Ordering.lt h l = refl
of_ordering-code n Ordering.eq h l = ground arith
of_ordering-code n Ordering.gt h l = ground arith

code-of_rune : (n : ℕ) → n < 55296 → code (of_rune n) ≡ n
unfolding of_rune
code-of_rune n h = of_ordering-code n (compare n 55296) refl h

pub runes-of_runes : (rs : List ℕ) → All (λ r. r < 55296) rs → runes (of_runes rs) ≡ rs
unfolding runes of_runes
runes-of_runes [] h = refl
runes-of_runes (r ∷ rs) h = ground (arith, code-of_rune r h.0, runes-of_runes rs h.1)

unfoldable pub sanitize_name : String → String
unfolding sanitize_runes runes of_runes
sanitize_name name = of_runes (sanitize_runes (runes name))
