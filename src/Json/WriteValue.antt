-- ===== src/Json/WriteValue.antt =====
-- `write_json` of a value of skate/io/adapters/json.h, with all that it selects by the type.
use skate.Prelude.{
  ℕ, ◌==◌, if◌then◌else◌, Bool, true, false, Option, none, some, List, [], ◌∷◌, ◌++◌, codes,
}
use skate.Results.{success, failure, OutputResult}
use skate.Utf.Encode.{CharSize}
use skate.Number.Decode.{ℤ, pos}
use skate.Number.Decode
use skate.Number.Encode.{int_encode}
use skate.Number.Floating.{FloatLibrary, fp_encode}
use skate.Json.Escape.{write_json_string}
use skate.Json.Value.{Value, Values, Members, null, boolean, floating, int64, uint64, string, array}
use skate.Json.Value.{
  object, no_values, element, no_members, member, WriteOptions, indented, write_indent,
}

unfoldable pub write_bool : Bool → List ℕ → OutputResult (List ℕ)
write_bool true out = record { output = out ++ codes "true"; result = success }
write_bool false out = record { output = out ++ codes "false"; result = success }

-- The comma before all elements but the first.
unfoldable pub separate : Bool → List ℕ → List ℕ
separate first out = if first then out else out ++ (b',' ∷ [])

-- The end of an array or object.
unfoldable pub close_with : WriteOptions → ℕ → OutputResult (List ℕ) → OutputResult (List ℕ)
close_with o bracket r = elim r.result [
  | success ↦ record { output = write_indent o r.output ++ (bracket ∷ []); result = success }
  | failure ↦ record { output = r.output; result = failure }
]

-- What follows a step that succeeded; `none` is a loop that has not returned.
abbrev pub then_write :
    Option (OutputResult (List ℕ))
    → (List ℕ → Option (OutputResult (List ℕ)))
    → Option (OutputResult (List ℕ))
then_write none next = none
then_write (some r) next = elim r.result [ success ↦ next r.output | failure ↦ some r ]

unfoldable pub close_option :
    WriteOptions → ℕ → Option (OutputResult (List ℕ)) → Option (OutputResult (List ℕ))
unfolding close_with
close_option o bracket none = none
close_option o bracket (some r) = some (close_with o bracket r)

-- The colon behind a key.
unfoldable pub write_colon : WriteOptions → List ℕ → List ℕ
write_colon o out =
    if o.indent == 0 then out ++ (b':' ∷ []) else (out ++ (b':' ∷ [])) ++ (b' ' ∷ [])

module _ (f : FloatLibrary) (c : CharSize) where
  -- The strings have units of the size `c`. The loops are over what is left of the elements, with
  -- whether the next is the first.
  unfoldable mutual
    pub write_value :
        WriteOptions → Value (List ℕ) f.Double → List ℕ → Option (OutputResult (List ℕ))
    write_value o null out = some (record { output = out ++ codes "null"; result = success })
    write_value o (boolean b) out = some (write_bool b out)
    write_value o (floating d) out = some (fp_encode f d out false false)
    write_value o (int64 i) out = int_encode Decode.int64 i out 10
    write_value o (uint64 n) out = int_encode Decode.uint64 (pos n) out 10
    write_value o (string s) out = write_json_string c s out
    write_value o (array xs) out =
        close_option o b']' (write_elements (indented o) xs true (out ++ (b'[' ∷ [])))
    write_value o (object m) out =
        close_option o b'}' (write_members (indented o) m true (out ++ (b'{' ∷ [])))

    pub write_elements :
        WriteOptions → Values (List ℕ) f.Double → Bool → List ℕ → Option (OutputResult (List ℕ))
    write_elements o no_values first out = some (record { output = out; result = success })
    write_elements o (element v xs) first out =
        then_write (write_value o v (write_indent o (separate first out)))
          (write_elements o xs false)

    pub write_members :
        WriteOptions → Members (List ℕ) f.Double → Bool → List ℕ → Option (OutputResult (List ℕ))
    write_members o no_members first out = some (record { output = out; result = success })
    write_members o (member k v m) first out =
        then_write
          (then_write (write_json_string c k (write_indent o (separate first out)))
            (λ out'. write_value o v (write_colon o out')))
          (write_members o m false)

  -- `to_json`, which drops what was written before a failure.
  unfoldable pub to_json : WriteOptions → Value (List ℕ) f.Double → Option (OutputResult (List ℕ))
  to_json o v = elim (write_value o v []) [
    | none ↦ none
    | some r ↦
        some (elim r.result [ success ↦ r | failure ↦ record { output = []; result = failure } ])
  ]
