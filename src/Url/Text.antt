-- ===== src/Url/Text.antt =====
-- How the class `url` of skate/socket/address.h is written as a text and read from one. Hosts are those
-- of the class `network_address`, a parameter.
use skate.Prelude.{ℕ, suc, ◌+◌, ◌-◌, ◌%◌, ◌^◌, ◌==◌, ltb, not, ◌&&◌, ◌||◌, if◌then◌else◌}
use skate.Prelude.{
  Bool, true, false, List, [], ◌∷◌, ◌++◌, length, Option, none, some, codes, drop, take,
}
use skate.Ascii.Case.{lowercase_ascii, isalpha, isalnum}
use skate.SplitJoin.Defs.{split}
use skate.Url.Percent.{Encoding, raw, contains}
use skate.Url.Defs.{NetworkAddress, Url, text_eq, empty_text, set_username, set_password, set_query}
use skate.Url.Defs.{set_fragment, set_path, set_scheme, append_username, append_password}
use skate.Url.Defs.{append_path, append_path_and_query_and_fragment}

-- `std::string::find` of one character and `find_first_of`: the place, counted from `at`.
abbrev pub find_any : List ℕ → List ℕ → ℕ → Option ℕ
find_any chars [] at = none
find_any chars (c ∷ s) at =
    let later = find_any chars s (suc at) in if contains chars c then some at else later

-- `substr` with a length that may be beyond the end; `end - start` wraps round.
abbrev pub between : List ℕ → ℕ → ℕ → List ℕ
between s start end = take ((end + (2 ^ 64 - start)) % 2 ^ 64) (drop start s)

-- The place, or `npos`.
abbrev pub or_npos : Option ℕ → ℕ
or_npos none = 2 ^ 64 - 1
or_npos (some k) = k

module _ (net : NetworkAddress) where
  open net use {Host, parse, no_host, is_null, port, with_port, text}

  unfoldable pub new_url : Url Host
  new_url = record {
    host = no_host;
    scheme = [];
    username = [];
    has_username = false;
    password = [];
    has_password = false;
    pathlist = [];
    query = [];
    querymap = [];
    has_query = false;
    fragment = [];
    has_fragment = false;
  }

  unfoldable pub set_hostname : Url Host → List ℕ → Url Host
  set_hostname u s = record u { host = parse (lowercase_ascii s) }

  unfoldable pub set_host : Url Host → List ℕ → Url Host
  set_host u s = record u { host = with_port (parse (lowercase_ascii s)) (port u.host) }

  unfoldable pub set_port : Url Host → ℕ → Url Host
  set_port u p = record u { host = with_port u.host p }

  unfoldable pub has_hostname : Url Host → Bool
  has_hostname u = not (is_null u.host) || not (port u.host == 0)

  unfoldable pub has_authority : Url Host → Bool
  unfolding has_hostname
  has_authority u = (u.has_username || u.has_password) || has_hostname u

  unfoldable pub default_port_for_scheme : Url Host → ℕ
  default_port_for_scheme u =
      if text_eq u.scheme (codes "http")
      then 80
      else if text_eq u.scheme (codes "https")
      then 443
      else if text_eq u.scheme (codes "ftp")
      then 21
      else 0

  -- The decimal text of a port, by `std::to_string`.
  module _ (decimal : ℕ → List ℕ) where
    unfoldable pub append_hostname : List ℕ → Url Host → List ℕ
    append_hostname out u =
        if port u.host == 0
        then out ++ text u.host
        else (out ++ text u.host) ++ codes ":" ++ decimal (port u.host)

    unfoldable pub append_authority : List ℕ → Url Host → Encoding → List ℕ
    unfolding append_hostname
    append_authority out u fmt =
        let user = append_password (append_username out u fmt ++ codes ":") u fmt ++ codes "@" in
        append_hostname
          (if not (empty_text u.username) || not (empty_text u.password) then user else out) u

    unfoldable pub to_string : Url Host → Encoding → List ℕ
    unfolding has_authority append_authority
    to_string u fmt =
        let scheme = if not (empty_text u.scheme) then u.scheme ++ codes ":" else [] in
        let authority =
          if has_authority u then append_authority (scheme ++ codes "//") u fmt else scheme in
        let slash : List ℕ = elim u.pathlist [
          | [] ↦ authority
          | e ∷ es ↦ if not (empty_text e) then authority ++ codes "/" else authority
        ] in
        append_path_and_query_and_fragment slash u fmt

  abbrev is_scheme_character : ℕ → Bool
  is_scheme_character c = isalnum c || c == b'+' || c == b'-' || c == b'.'

  abbrev is_scheme : List ℕ → Bool
  is_scheme [] = true
  is_scheme (c ∷ s) = is_scheme_character c && is_scheme s

  abbrev starts_alpha : List ℕ → Bool
  starts_alpha [] = false
  starts_alpha (c ∷ s) = isalpha c

  unfoldable pub valid : Url Host → Bool
  unfolding has_authority
  valid u =
      starts_alpha u.scheme
      && is_scheme u.scheme
      && not (is_null u.host)
      && not (has_authority u && text_eq (take 2 (append_path [] u raw)) (codes "//"))

  module _ (beyond : ℕ → ℕ) where
    -- The part in front of the first `@` is split at the first colon of the whole text.
    unfoldable pub set_authority : Url Host → List ℕ → Encoding → Url Host
    unfolding set_hostname
    set_authority u s fmt = elim (find_any (codes "@") s 0) [
      | none ↦ set_hostname u s
      | some end ↦ elim (find_any (codes ":") s 0) [
        | none ↦ set_hostname (set_username beyond u (between s 0 end) fmt) (drop (end + 1) s)
        | some middle ↦
            set_hostname
              (set_password beyond (set_username beyond u (between s 0 middle) fmt)
                (between s (middle + 1) end) fmt)
              (drop (end + 1) s)
      ]
    ]

    -- `set_path` of a text, without the line that it prints on the standard output; `none` would mean
    -- that the fuel of `split` ran out.
    unfoldable pub set_path_text : Url Host → List ℕ → Encoding → Option (Url Host)
    set_path_text u s fmt = elim (split s (codes "/") false) [
      | none ↦ none
      | some path ↦ some (set_path beyond u path fmt)
    ]

    -- Whether there is that character at a place of the text.
    abbrev pub has_at : List ℕ → ℕ → ℕ → Bool
    has_at s i c = elim (drop i s) [ [] ↦ false | x ∷ xs ↦ x == c ]

    -- The fragment, from `start` on.
    unfoldable pub read_fragment : Url Host → List ℕ → ℕ → Encoding → Url Host
    read_fragment u s start fmt =
        if has_at s start b'#' then set_fragment beyond u (between s (start + 1) start) fmt else u

    -- The query, if there is one, and the fragment.
    unfoldable pub read_query : Url Host → List ℕ → ℕ → Encoding → Url Host
    unfolding read_fragment
    read_query u s start fmt =
        let end = or_npos (find_any (codes "#") (drop (start + 1) s) (start + 1)) in
        if has_at s start b'?'
        then read_fragment (set_query beyond u (between s (start + 1) end) fmt) s end fmt
        else read_fragment u s start fmt

    unfoldable pub read_path : Url Host → List ℕ → ℕ → Encoding → Option (Url Host)
    unfolding set_path_text read_query
    read_path u s start fmt =
        let end = or_npos (find_any (codes "?#") (drop start s) start) in
        elim (set_path_text u (between s start end) fmt) [
          | none ↦ none
          | some u' ↦ some (read_query u' s end fmt)
        ]

    unfoldable pub read_authority : Url Host → List ℕ → ℕ → Encoding → Option (Url Host)
    unfolding set_authority read_path
    read_authority u s start fmt =
        if ltb 2 (length s - start) && has_at s start b'/' && has_at s (start + 1) b'/'
        then elim (find_any (codes "/?#") (drop (start + 2) s) (start + 2)) [
          | none ↦ some (set_authority u (drop (start + 2) s) fmt)
          | some end ↦ read_path (set_authority u (between s (start + 2) end) fmt) s end fmt
        ]
        else read_path u s start fmt

    unfoldable pub from_string : List ℕ → Encoding → Option (Url Host)
    unfolding read_authority
    from_string s fmt = elim (find_any (codes ":") s 0) [
      | none ↦ some new_url
      | some end ↦
          let u = set_scheme new_url (between s 0 end) in
          read_authority (record u { scheme = lowercase_ascii u.scheme }) s (end + 1) fmt
    ]
