-- ===== src/Json/Steps.antt =====
-- The steps of `read_json` of a value of skate/io/adapters/json.h: what follows the first character,
-- and the rounds of the loops over arrays and objects.
use skate.Prelude.{ℕ, suc, ◌≡◌, ap, ◌∙◌, Bool, true, false}
use skate.Prelude.{List, [], some}
use skate.Results.{success, failure, InputResult}
use skate.Utf.Encode.{CharSize}
use skate.Number.Floating.{FloatLibrary}
use skate.Json.Value.{Value, Values, Members, null, array, object}
use skate.Json.Value.{no_values, no_members}
use skate.Json.Value.{push_value, insert_member, ReadOptions, nested}
use skate.Json.ReadString.{skip_whitespace, starts_with_char, read_json_string}
use skate.Json.ReadScalar.{
  read_null, read_bool, read_number, open_bracket, Next, next_item, item, stop,
}
use skate.Json.ReadScalar.{
  Kind, unknown, text, list, map, boolean_word, null_word, numeric, kind_of,
}
use skate.Json.ReadValue.{
  Outcome, failed, as_string, then_read, read_value, read_elements, read_members,
}

module _ (beyond : ℕ → ℕ) (f : FloatLibrary) (d : CharSize) where
  -- What a reader gives that stops before `rest`.
  abbrev pub gives : List ℕ → Value (List ℕ) f.Double → Outcome beyond f d
  gives rest v = some (record { input = rest; output = v; result = success })

  -- Behind an opening bracket.
  abbrev pub list_at : ℕ → ReadOptions → InputResult (List ℕ) → Outcome beyond f d
  list_at fuel o r = elim r.result [
    | success ↦ read_elements beyond f d fuel (nested o) no_values false r.input
    | failure ↦ some (failed beyond f d (array no_values) r.input)
  ]

  abbrev pub map_at : ℕ → ReadOptions → InputResult (List ℕ) → Outcome beyond f d
  map_at fuel o r = elim r.result [
    | success ↦ read_members beyond f d fuel (nested o) no_members false r.input
    | failure ↦ some (failed beyond f d (object no_members) r.input)
  ]

  -- The `switch`, at the text `s` without white space before it, for its kind.
  abbrev pub switch : ℕ → ReadOptions → Value (List ℕ) f.Double → List ℕ → Kind → Outcome beyond f d
  switch fuel o j s k = elim k [
    | unknown ↦ some (failed beyond f d j s)
    | text ↦ as_string beyond f d (read_json_string beyond d s [])
    | list ↦ list_at fuel o (open_bracket o b'[' s)
    | map ↦ map_at fuel o (open_bracket o b'{' s)
    | boolean_word ↦ some (read_bool s)
    | null_word ↦ some (read_null s)
    | numeric ↦ some (read_number beyond f s j)
  ]

  -- A reader skips white space, and goes on by what it finds there.
  pub switch_at :
      (fuel : ℕ) (o : ReadOptions) (s l : List ℕ) (j : Value (List ℕ) f.Double) (k : Kind)
      → skip_whitespace s ≡ l
      → kind_of l ≡ k
      → read_value beyond f d (suc fuel) o s j ≡ switch fuel o j l k
  unfolding read_value
  switch_at fuel o s l j k e t =
      ap (λ x. switch fuel o j x (kind_of x)) e ∙ ap (switch fuel o j l) t

  -- The loops, from the beginning of a round on.
  abbrev pub elements_at : ℕ → ReadOptions → Values (List ℕ) f.Double → Next → Outcome beyond f d
  elements_at fuel o a k = elim k [
    | stop rest r ↦ some (record { input = rest; output = array a; result = r })
    | item here ↦
        then_read (read_value beyond f d fuel o here null) (failed beyond f d (array a))
          (λ rest v. read_elements beyond f d fuel o (push_value a v) true rest)
  ]

  abbrev pub key_then :
      ℕ
      → ReadOptions
      → Members (List ℕ) f.Double
      → List ℕ
      → InputResult (List ℕ)
      → Outcome beyond f d
  key_then fuel o m key colon = elim colon.result [
    | failure ↦ some (failed beyond f d (object m) colon.input)
    | success ↦
        then_read (read_value beyond f d fuel o colon.input null) (failed beyond f d (object m))
          (λ after v. read_members beyond f d fuel o (insert_member m key v) true after)
  ]

  abbrev pub members_at : ℕ → ReadOptions → Members (List ℕ) f.Double → Next → Outcome beyond f d
  members_at fuel o m k = elim k [
    | stop rest r ↦ some (record { input = rest; output = object m; result = r })
    | item here ↦
        then_read (read_json_string beyond d here []) (failed beyond f d (object m))
          (λ rest key. key_then fuel o m key (starts_with_char (skip_whitespace rest) b':'))
  ]

  -- A round of the loop over an array that reads an element.
  pub element_round :
      (fuel : ℕ) (o : ReadOptions) (a : Values (List ℕ) f.Double) (more : Bool)
      (s l here after : List ℕ) (v : Value (List ℕ) f.Double) (out : Outcome beyond f d)
      → skip_whitespace s ≡ l
      → next_item b']' more l ≡ item here
      → read_value beyond f d fuel o here null ≡ gives after v
      → read_elements beyond f d fuel o (push_value a v) true after ≡ out
      → read_elements beyond f d (suc fuel) o a more s ≡ out
  unfolding read_elements
  element_round fuel o a more s l here after v out e n h t =
      ap (elements_at fuel o a) (ap (next_item b']' more) e ∙ n)
      ∙ ap
          (λ r.
            then_read r (failed beyond f d (array a))
              (λ rest x. read_elements beyond f d fuel o (push_value a x) true rest))
          h
      ∙ t

  -- A round of the loop over an object that reads a member.
  pub member_round :
      (fuel : ℕ) (o : ReadOptions) (m : Members (List ℕ) f.Double) (more : Bool)
      (s l here rest value after key : List ℕ) (v : Value (List ℕ) f.Double)
      (out : Outcome beyond f d)
      → skip_whitespace s ≡ l
      → next_item b'}' more l ≡ item here
      → read_json_string beyond d here []
        ≡ some (record { input = rest; output = key; result = success })
      → starts_with_char (skip_whitespace rest) b':' ≡ record { input = value; result = success }
      → read_value beyond f d fuel o value null ≡ gives after v
      → read_members beyond f d fuel o (insert_member m key v) true after ≡ out
      → read_members beyond f d (suc fuel) o m more s ≡ out
  unfolding read_members
  member_round fuel o m more s l here rest value after key v out e n k c h t =
      ap (members_at fuel o m) (ap (next_item b'}' more) e ∙ n)
      ∙ ap
          (λ r.
            then_read r (failed beyond f d (object m))
              (λ rest x. key_then fuel o m x (starts_with_char (skip_whitespace rest) b':')))
          k
      ∙ ap (key_then fuel o m key) c
      ∙ ap
          (λ r.
            then_read r (failed beyond f d (object m))
              (λ rest x. read_members beyond f d fuel o (insert_member m key x) true rest))
          h
      ∙ t
