-- ===== src/Json/ReadValue.antt =====
-- `read_json` of a value of skate/io/adapters/json.h: recursive descent over UTF-8 text.
use skate.Prelude.{ℕ, zero, suc, ◌+◌, ◌*◌, Bool, true, false, Option, none, some, List, [], length}
use skate.Results.{success, failure, ParsingResult}
use skate.Utf.Encode.{CharSize}
use skate.Number.Floating.{FloatLibrary}
use skate.Json.ReadString.{skip_whitespace, starts_with_char, read_json_string}
use skate.Json.ReadScalar.{unknown, text, list, map, boolean_word, null_word, numeric, kind_of}
use skate.Json.ReadScalar.{read_null, read_bool, read_number, open_bracket, stop, item, next_item}
use skate.Json.Value.{Value, Values, Members, null, string, array, object, no_values, no_members}
use skate.Json.Value.{push_value, insert_member, ReadOptions, nested}

-- What follows a step that returned, by how it ended.
abbrev pub then_read {ℓ} :
    {O : Type 0} {X : Type ℓ}
    → Option (ParsingResult (List ℕ) O)
    → (List ℕ → X)
    → (List ℕ → O → Option X)
    → Option X
then_read none fail next = none
then_read (some r) fail next = elim r.result [
  | success ↦ next r.input r.output
  | failure ↦ some (fail r.input)
]

module _ (beyond : ℕ → ℕ) (f : FloatLibrary) (d : CharSize) where
  abbrev pub JsonValue : Type 0
  JsonValue = Value (List ℕ) f.Double

  abbrev pub Outcome : Type 0
  Outcome = Option (ParsingResult (List ℕ) JsonValue)

  -- A failure leaves in the value what has been read so far.
  abbrev pub failed : JsonValue → List ℕ → ParsingResult (List ℕ) JsonValue
  failed j first = record { input = first; output = j; result = failure }

  unfoldable pub as_string : Option (ParsingResult (List ℕ) (List ℕ)) → Outcome
  as_string none = none
  as_string (some r) =
      some (record { input = r.input; output = string r.output; result = r.result })

  -- `a` and `m` are what has been read so far. `none` means that the fuel ran out.
  unfoldable mutual
    pub read_value : ℕ → ReadOptions → List ℕ → JsonValue → Outcome
    read_value zero o first j = none
    read_value (suc fuel) o first j =
        let s = skip_whitespace first in
        elim (kind_of s) [
          | unknown ↦ some (failed j s)
          | text ↦ as_string (read_json_string beyond d s [])
          | list ↦ elim (open_bracket o b'[' s).result [
            | success ↦ read_elements fuel (nested o) no_values false (open_bracket o b'[' s).input
            | failure ↦ some (failed (array no_values) (open_bracket o b'[' s).input)
          ]
          | map ↦ elim (open_bracket o b'{' s).result [
            | success ↦ read_members fuel (nested o) no_members false (open_bracket o b'{' s).input
            | failure ↦ some (failed (object no_members) (open_bracket o b'{' s).input)
          ]
          | boolean_word ↦ some (read_bool s)
          | null_word ↦ some (read_null s)
          | numeric ↦ some (read_number beyond f s j)
        ]

    pub read_elements : ℕ → ReadOptions → Values (List ℕ) f.Double → Bool → List ℕ → Outcome
    read_elements zero o a has_element first = none
    read_elements (suc fuel) o a has_element first =
        elim (next_item b']' has_element (skip_whitespace first)) [
          | stop rest r ↦ some (record { input = rest; output = array a; result = r })
          | item here ↦
              then_read (read_value fuel o here null) (failed (array a))
                (λ rest v. read_elements fuel o (push_value a v) true rest)
        ]

    pub read_members : ℕ → ReadOptions → Members (List ℕ) f.Double → Bool → List ℕ → Outcome
    read_members zero o m has_element first = none
    read_members (suc fuel) o m has_element first =
        elim (next_item b'}' has_element (skip_whitespace first)) [
          | stop rest r ↦ some (record { input = rest; output = object m; result = r })
          | item here ↦
              then_read (read_json_string beyond d here []) (failed (object m)) (λ rest key.
                let colon = starts_with_char (skip_whitespace rest) b':' in
                elim colon.result [
                  | failure ↦ some (failed (object m) colon.input)
                  | success ↦
                      then_read (read_value fuel o colon.input null) (failed (object m))
                        (λ after v. read_members fuel o (insert_member m key v) true after)
                ])
        ]

  -- `from_json`. The fuel is enough: each unit of it reads a character, or two of them do.
  unfoldable pub from_json : ReadOptions → List ℕ → Outcome
  from_json o r = read_value (2 * length r + 1) o r null
