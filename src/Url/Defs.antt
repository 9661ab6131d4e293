-- ===== src/Url/Defs.antt =====
-- The class `url` of skate/socket/address.h: its state, the functions that set its parts and those
-- that write them. What changes the object returns the new one.
use skate.Prelude.{ℕ, ◌==◌, not, ◌&&◌, if◌then◌else◌, Bool, true, false}
use skate.Prelude.{List, [], ◌∷◌, ◌++◌, length, codes, map}
use skate.Ascii.Case.{lowercase_ascii}
use skate.SplitJoin.Defs.{tjoin_loop}
use skate.Url.Percent.{Encoding, raw, percent, to_percent_encoded, from_string_helper}
use skate.Url.Percent.{subdelims, pathdelims, queryfragmentdelims, querymapdelims}

-- The class `network_address`, which wraps the addresses of the operating system.
pub record NetworkAddress : Type 1 where
  pub Host : Type 0
  pub parse : List ℕ → Host
  pub no_host : Host
  pub is_null : Host → Bool
  pub port : Host → ℕ
  pub with_port : Host → ℕ → Host
  pub text : Host → List ℕ

-- A std::map from texts to texts is the list of its entries, in order.
pub record Url (Host : Type 0) : Type 0 where
  pub host : Host
  pub scheme : List ℕ
  pub username : List ℕ
  pub has_username : Bool
  pub password : List ℕ
  pub has_password : Bool
  pub pathlist : List (List ℕ)
  pub query : List ℕ
  pub querymap : List (List ℕ × List ℕ)
  pub has_query : Bool
  pub fragment : List ℕ
  pub has_fragment : Bool

abbrev pub text_eq : List ℕ → List ℕ → Bool
text_eq [] [] = true
text_eq [] (y ∷ t) = false
text_eq (x ∷ s) [] = false
text_eq (x ∷ s) (y ∷ t) = (x == y) && text_eq s t

abbrev pub empty_text : List ℕ → Bool
empty_text s = length s == 0

-- The elements of a path without its dot segments, from `kept` on; a `.` at the end leaves an empty
-- element.
abbrev pub pop_element : List (List ℕ) → List (List ℕ)
pop_element [] = []
pop_element (x ∷ []) = []
pop_element (x ∷ y ∷ xs) = x ∷ pop_element (y ∷ xs)

unfoldable pub path_loop : List (List ℕ) → List (List ℕ) → List (List ℕ)
path_loop kept [] = kept
path_loop kept (element ∷ path) =
    let rest =
      path_loop
        (if text_eq element (codes "..")
          then pop_element kept
          else if not (text_eq element (codes "."))
          then kept ++ (element ∷ [])
          else if length path == 0
          then kept ++ ([] ∷ [])
          else kept)
        path in
    rest

module _ (beyond : ℕ → ℕ) {Host : Type 0} where
  unfoldable pub set_username : Url Host → List ℕ → Encoding → Url Host
  set_username u s fmt = record u {
    username = (from_string_helper beyond s fmt).0;
    has_username = true;
  }

  unfoldable pub set_password : Url Host → List ℕ → Encoding → Url Host
  set_password u s fmt = record u {
    password = (from_string_helper beyond s fmt).0;
    has_password = true;
  }

  unfoldable pub set_query : Url Host → List ℕ → Encoding → Url Host
  set_query u s fmt = record u {
    query = (from_string_helper beyond s fmt).0;
    querymap = [];
    has_query = true;
  }

  unfoldable pub set_fragment : Url Host → List ℕ → Encoding → Url Host
  set_fragment u s fmt = record u {
    fragment = (from_string_helper beyond s fmt).0;
    has_fragment = true;
  }

  -- `set_path` of a list of elements.
  unfoldable pub set_path : Url Host → List (List ℕ) → Encoding → Url Host
  unfolding path_loop
  set_path u path fmt = record u {
    pathlist = path_loop [] (map (λ p. (from_string_helper beyond p fmt).0) path);
  }

module _ {Host : Type 0} where
  unfoldable pub set_scheme : Url Host → List ℕ → Url Host
  set_scheme u s = record u { scheme = lowercase_ascii s }

  unfoldable pub set_queries : Url Host → List (List ℕ × List ℕ) → Url Host
  set_queries u m = record u { query = []; querymap = m; has_query = true }

  unfoldable pub clear_username : Url Host → Url Host
  clear_username u = record u { username = []; has_username = false }

  unfoldable pub clear_password : Url Host → Url Host
  clear_password u = record u { password = []; has_password = false }

  unfoldable pub clear_queries : Url Host → Url Host
  clear_queries u = record u { query = []; querymap = []; has_query = false }

  unfoldable pub clear_fragment : Url Host → Url Host
  clear_fragment u = record u { fragment = []; has_fragment = false }

-- A text at the end of another, raw or percent encoded.
unfoldable pub append_text : List ℕ → List ℕ → List ℕ → Encoding → List ℕ
append_text delims out s raw = out ++ s
append_text delims out s percent = to_percent_encoded out s delims

module _ {Host : Type 0} where
  unfoldable pub append_username : List ℕ → Url Host → Encoding → List ℕ
  append_username out u fmt = append_text subdelims out u.username fmt

  unfoldable pub append_password : List ℕ → Url Host → Encoding → List ℕ
  append_password out u fmt = append_text subdelims out u.password fmt

  unfoldable pub append_fragment : List ℕ → Url Host → Encoding → List ℕ
  append_fragment out u fmt = append_text queryfragmentdelims out u.fragment fmt

  unfoldable pub append_path : List ℕ → Url Host → Encoding → List ℕ
  append_path out u fmt =
      tjoin_loop (codes "/") (λ e. append_text pathdelims [] e fmt) false u.pathlist out

  unfoldable pub append_query : List ℕ → Url Host → Encoding → List ℕ
  append_query out u fmt =
      if not (length u.querymap == 0)
      then tjoin_loop (codes "&")
          (λ q.
            append_text querymapdelims (append_text querymapdelims [] q.0 fmt ++ codes "=") q.1 fmt)
          false u.querymap out
      else if not (empty_text u.query)
      then append_text queryfragmentdelims out u.query fmt
      else out

  unfoldable pub append_path_and_query : List ℕ → Url Host → Encoding → List ℕ
  append_path_and_query out u fmt =
      let path = append_path out u fmt in
      if u.has_query then append_query (path ++ codes "?") u fmt else path

  unfoldable pub append_path_and_query_and_fragment : List ℕ → Url Host → Encoding → List ℕ
  append_path_and_query_and_fragment out u fmt =
      let most = append_path_and_query out u fmt in
      if u.has_fragment then append_fragment (most ++ codes "#") u fmt else most
