-- ===== src/Url/Tests.antt =====
-- Tests of the class `url` of skate/socket/address.h.
use skate.Prelude.{ℕ, ◌≡◌, refl, arith, true, false, List, [], ◌∷◌, All, codes, length, ◌==◌}
use skate.Url.Percent.{raw, percent, from_string_helper, to_percent_encoded, subdelims}
use skate.Url.PercentRoundTrip.{from_string_helper-to_percent_encoded}
use skate.Url.Defs.{NetworkAddress, Url, set_path, set_username, set_password}
use skate.Url.Text.{new_url, set_hostname, set_authority}
use skate.Url.Authority.{set_authority-text}
use skate.Url.Path.{is_segment, set_path-segments}

from_string_helper-to_percent_encoded_example :
    from_string_helper (λ c. 255) (to_percent_encoded [] (codes "a /") subdelims) percent
    ≡ (codes "a %2F", true)
unfolding skate.Url.Percent.is_plain skate.Ascii.Case.isalnum skate.Ascii.Digit.nibble_to_hex
from_string_helper-to_percent_encoded_example =
    from_string_helper-to_percent_encoded (λ c. 255) subdelims (codes "a /")
      (omega arith, (omega arith, (omega arith, tt))) refl

abbrev blank : Url ℕ
blank = record {
  host = 0;
  scheme = [];
  username = [];
  has_username = false;
  password = [];
  has_password = false;
  pathlist = [];
  query = [];
  querymap = [];
  has_query = false;
  fragment = [];
  has_fragment = false;
}

abbrev up_and_down : List (List ℕ)
up_and_down = codes "a" ∷ codes ".." ∷ codes "%2e" ∷ codes "b" ∷ []

set_path-segments_example :
    All (λ e. is_segment e ≡ true) (set_path (λ c. 255) blank up_and_down percent).pathlist
    × ((set_path (λ c. 255) blank up_and_down percent).pathlist
        ≡ (set_path (λ c. 255) blank (codes "%2e" ∷ codes "b" ∷ []) percent).pathlist)
unfolding from_string_helper skate.Ascii.Digit.hex_to_nibble skate.Ascii.Digit.table_digit
set_path-segments_example =
    set_path-segments (λ c. 255) blank up_and_down [] (codes "b" ∷ []) (codes "a") (codes "..")
      (codes "%2e") percent refl refl

set_path_test : (set_path (λ c. 255) blank up_and_down percent).pathlist ≡ codes "b" ∷ []
unfolding set_path from_string_helper skate.Ascii.Digit.hex_to_nibble skate.Ascii.Digit.table_digit
set_path_test = refl

-- Hosts that are kept as they are written.
abbrev plain_hosts : NetworkAddress
plain_hosts = record {
  Host = List ℕ;
  parse = λ s. s;
  no_host = [];
  is_null = λ s. length s == 0;
  port = λ s. 0;
  with_port = λ s p. s;
  text = λ s. s;
}

set_authority-text_example :
    (set_authority plain_hosts (λ c. 255) (new_url plain_hosts) (codes "me:pw@host") raw
      ≡ set_hostname plain_hosts
          (set_password
            (λ c. 255)
            (set_username (λ c. 255) (new_url plain_hosts) (codes "me") raw)
            (codes "pw")
            raw)
          (codes "host"))
    × (set_authority plain_hosts (λ c. 255) (new_url plain_hosts) (codes "me@pw:host") raw
        ≡ set_hostname plain_hosts
            (set_password
              (λ c. 255)
              (set_username (λ c. 255) (new_url plain_hosts) (codes "me@pw") raw)
              (codes "host")
              raw)
            (codes "pw:host"))
set_authority-text_example =
    set_authority-text plain_hosts (λ c. 255) (new_url plain_hosts) raw (codes "me") (codes "pw")
      (codes "host") (refl, (refl, tt)) (refl, (refl, tt)) (refl, (refl, tt)) (refl, (refl, tt))
      (omega arith)
