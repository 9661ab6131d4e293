-- ===== src/Json/Text.antt =====
-- The text of a JSON value whose strings are lists of characters, and the conditions under which
-- it can be written and read.
use skate.Prelude.{ℕ, suc, ◌+◌, ◌≡◌, ◌≢◌, max, ◌==◌, if◌then◌else◌, Bool, true, false}
use skate.Prelude.{List, [], ◌∷◌, ◌++◌, replicate, All, codes}
use skate.Utf.Unicode.{Unicode}
use skate.Utf.Encode.{CharSize, utf_encode_all}
use skate.Utf.Utf8.RoundTrip.{IsAccepted}
use skate.Number.Decode.{ℤ, pos, negsuc, int64, uint64}
use skate.Number.RoundTrip.{IsIn}
use skate.Json.RoundTrip.{quoted}
use skate.Json.Numbers.{integer_text}
use skate.Json.Value.{Value, Values, Members, null, boolean, floating, string, array, object}
use skate.Json.Value.{no_values, element, no_members, member, lt_string, WriteOptions, indented}

-- A new line, if any, and the indentation.
abbrev pub indent_text : WriteOptions → List ℕ
indent_text o = (if o.indent == 0 then [] else 10 ∷ []) ++ replicate o.current_indentation b' '

abbrev pub comma_text : Bool → List ℕ
comma_text true = []
comma_text false = b',' ∷ []

abbrev pub colon_text : WriteOptions → List ℕ
colon_text o = if o.indent == 0 then b':' ∷ [] else b':' ∷ b' ' ∷ []

-- A string in units of the size `c`.
abbrev pub encoded : CharSize → List Unicode → List ℕ
encoded c us = (utf_encode_all c us []).output

-- A string that every encoding carries, without a vertical tab.
abbrev pub IsText : List Unicode → Type 0
IsText us = All (λ u. IsAccepted u.cp) us × All (λ u. u.cp ≢ 0x0B) us

module _ {S D : Type 0} where
  -- How deep arrays and objects are nested.
  unfoldable mutual
    pub depth : Value S D → ℕ
    depth (array xs) = suc (values_depth xs)
    depth (object m) = suc (members_depth m)
    depth _ = 0

    pub values_depth : Values S D → ℕ
    values_depth no_values = 0
    values_depth (element v xs) = max (depth v) (values_depth xs)

    pub members_depth : Members S D → ℕ
    members_depth no_members = 0
    members_depth (member k v m) = max (depth v) (members_depth m)

module _ {D : Type 0} where
  unfoldable mutual
    pub text_of : WriteOptions → Value (List Unicode) D → List ℕ
    text_of o null = codes "null"
    text_of o (boolean b) = if b then codes "true" else codes "false"
    text_of o (floating d) = []
    text_of o (Value.int64 i) = integer_text i
    text_of o (Value.uint64 n) = integer_text (pos n)
    text_of o (string us) = quoted us
    text_of o (array xs) =
        b'[' ∷ (elements_text (indented o) true xs ++ (indent_text o ++ (b']' ∷ [])))
    text_of o (object m) =
        b'{' ∷ (members_text (indented o) true m ++ (indent_text o ++ (b'}' ∷ [])))

    pub elements_text : WriteOptions → Bool → Values (List Unicode) D → List ℕ
    elements_text o first no_values = []
    elements_text o first (element v xs) =
        comma_text first ++ (indent_text o ++ (text_of o v ++ elements_text o false xs))

    pub members_text : WriteOptions → Bool → Members (List Unicode) D → List ℕ
    members_text o first no_members = []
    members_text o first (member k v m) =
        comma_text first
        ++ (indent_text o
            ++ (quoted k ++ (colon_text o ++ (text_of o v ++ members_text o false m))))

  -- The value with its strings encoded in units of the size `c`.
  module _ (c : CharSize) where
    unfoldable mutual
      pub value_of : Value (List Unicode) D → Value (List ℕ) D
      value_of null = null
      value_of (boolean b) = boolean b
      value_of (floating d) = floating d
      value_of (Value.int64 i) = Value.int64 i
      value_of (Value.uint64 n) = Value.uint64 n
      value_of (string us) = string (encoded c us)
      value_of (array xs) = array (values_of xs)
      value_of (object m) = object (members_of m)

      pub values_of : Values (List Unicode) D → Values (List ℕ) D
      values_of no_values = no_values
      values_of (element v xs) = element (value_of v) (values_of xs)

      pub members_of : Members (List Unicode) D → Members (List ℕ) D
      members_of no_members = no_members
      members_of (member k v m) = member (encoded c k) (value_of v) (members_of m)

    -- All keys of an object come behind the key `k`, which is encoded.
    abbrev pub AllAfter : List ℕ → Members (List Unicode) D → Type 0
    AllAfter k no_members = Unit {0}
    AllAfter k (member k' v m) = (lt_string k (encoded c k') ≡ true) × AllAfter k m

  -- A number without a sign is read as an unsigned integer.
  abbrev pub normal_int : ℤ → Value (List Unicode) D
  normal_int (pos n) = Value.uint64 n
  normal_int (negsuc n) = Value.int64 (negsuc n)

  unfoldable mutual
    pub normal : Value (List Unicode) D → Value (List Unicode) D
    normal null = null
    normal (boolean b) = boolean b
    normal (floating d) = floating d
    normal (Value.int64 i) = normal_int i
    normal (Value.uint64 n) = Value.uint64 n
    normal (string us) = string us
    normal (array xs) = array (normal_values xs)
    normal (object m) = object (normal_members m)

    pub normal_values : Values (List Unicode) D → Values (List Unicode) D
    normal_values no_values = no_values
    normal_values (element v xs) = element (normal v) (normal_values xs)

    pub normal_members : Members (List Unicode) D → Members (List Unicode) D
    normal_members no_members = no_members
    normal_members (member k v m) = member k (normal v) (normal_members m)

  -- The rounds of the reader's loops and its calls.
  unfoldable mutual
    pub cost : Value (List Unicode) D → ℕ
    cost (array xs) = suc (values_cost xs)
    cost (object m) = suc (members_cost m)
    cost _ = 1

    pub values_cost : Values (List Unicode) D → ℕ
    values_cost no_values = 1
    values_cost (element v xs) = suc (cost v + values_cost xs)

    pub members_cost : Members (List Unicode) D → ℕ
    members_cost no_members = 1
    members_cost (member k v m) = suc (cost v + members_cost m)

  -- No floating point numbers, integers in range, strings as above, and the keys of every object in
  -- the order of the map, when they are encoded in units of the size `c`.
  module _ (c : CharSize) where
    abbrev mutual
      pub IsPlain : Value (List Unicode) D → Type 0
      IsPlain null = Unit {0}
      IsPlain (boolean b) = Unit {0}
      IsPlain (floating d) = ⊥
      IsPlain (Value.int64 i) = IsIn int64 i
      IsPlain (Value.uint64 n) = IsIn uint64 (pos n)
      IsPlain (string us) = IsText us
      IsPlain (array xs) = ArePlain xs
      IsPlain (object m) = AreSorted m

      pub ArePlain : Values (List Unicode) D → Type 0
      ArePlain no_values = Unit {0}
      ArePlain (element v xs) = IsPlain v × ArePlain xs

      pub AreSorted : Members (List Unicode) D → Type 0
      AreSorted no_members = Unit {0}
      AreSorted (member k v m) = IsText k × IsPlain v × AllAfter c (encoded c k) m × AreSorted m
