-- ===== src/Ascii/Case.antt =====
-- Classes of characters and letter case of skate/containers/utf.h.
use skate.Prelude.{
  ℕ, ◌+◌, ◌-◌, ◌<◌, ◌≡◌, refl, arith, bit_xor, leb, ltb, ◌==◌, if◌then◌else◌, ◌&&◌, ◌||◌,
}
use skate.Prelude.{Bool, List, [], ◌∷◌}
use skate.Prelude.Table.{holds_below, eq_below}

unfoldable pub isdigit : ℕ → Bool
isdigit c = leb b'0' c && leb c b'9'

unfoldable pub isfpdigit : ℕ → Bool
isfpdigit c =
    leb b'0' c && leb c b'9' || c == b'-' || c == b'.' || c == b'e' || c == b'E' || c == b'+'

unfoldable pub isalpha : ℕ → Bool
isalpha c = leb b'A' c && leb c b'Z' || leb b'a' c && leb c b'z'

unfoldable pub isalnum : ℕ → Bool
unfolding isalpha isdigit
isalnum c = isalpha c || isdigit c

unfoldable pub isspace : ℕ → Bool
isspace c = c == b' ' || c == 10 || c == 13 || c == 9

unfoldable pub isspace_or_tab : ℕ → Bool
isspace_or_tab c = c == b' ' || c == 9

unfoldable pub isupper : ℕ → Bool
isupper c = leb b'A' c && leb c b'Z'

unfoldable pub islower : ℕ → Bool
islower c = leb b'a' c && leb c b'z'

unfoldable pub tolower : ℕ → ℕ
unfolding isupper
tolower c = if isupper c then bit_xor c 0x20 else c

unfoldable pub toupper : ℕ → ℕ
unfolding islower
toupper c = if islower c then bit_xor c 0x20 else c

-- The loops over a string, in place or on a copy.
unfoldable pub uppercase_ascii : List ℕ → List ℕ
uppercase_ascii [] = []
uppercase_ascii (c ∷ s) = toupper c ∷ uppercase_ascii s

unfoldable pub lowercase_ascii : List ℕ → List ℕ
lowercase_ascii [] = []
lowercase_ascii (c ∷ s) = tolower c ∷ lowercase_ascii s

-- The letter of the other case is 32 away.
flip_case :
    (c : ℕ)
    → c < 128
    → bit_xor c 0x20 ≡ (if leb 0x40 c && ltb c 0x60 then c + 32 else bit_xor c 0x20)
unfolding holds_below
flip_case =
    eq_below 128 (λ c. bit_xor c 0x20)
      (λ c. if leb 0x40 c && ltb c 0x60 then c + 32 else bit_xor c 0x20) refl

flip_back : (c : ℕ) → c < 128 → (if leb 0x60 c then bit_xor c 0x20 + 32 else c) ≡ c
unfolding holds_below
flip_back = eq_below 128 (λ c. if leb 0x60 c then bit_xor c 0x20 + 32 else c) (λ c. c) refl

-- `tolower` adds 32 to a capital letter of ASCII and changes no other character, whatever its size.
pub tolower_lem : (c : ℕ) → tolower c ≡ (if leb b'A' c && leb c b'Z' then c + 32 else c)
unfolding tolower
tolower_lem c = ground (arith, flip_case c)

-- `toupper` takes 32 off a small letter of ASCII and changes no other character, whatever its size.
pub toupper_lem : (c : ℕ) → toupper c ≡ (if leb b'a' c && leb c b'z' then c - 32 else c)
unfolding toupper
toupper_lem c = ground (arith, flip_back c)

-- Lower-casing a string that was upper-cased before gives what lower-casing the string itself
-- gives.
pub lowercase_ascii-uppercase_ascii :
    (s : List ℕ) → lowercase_ascii (uppercase_ascii s) ≡ lowercase_ascii s
unfolding lowercase_ascii uppercase_ascii
lowercase_ascii-uppercase_ascii [] = refl
lowercase_ascii-uppercase_ascii (c ∷ s) = ground (
  arith,
  tolower_lem (toupper c),
  tolower_lem c,
  toupper_lem c,
  lowercase_ascii-uppercase_ascii s,
)
