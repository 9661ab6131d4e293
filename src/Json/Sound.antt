-- ===== src/Json/Sound.antt =====
-- `read_json` of a value of skate/io/adapters/json.h keeps the invariant of the values.
use skate.Prelude.{ℕ, zero, suc, ◌+◌, ◌*◌, ◌-◌, ◌≤◌, ◌<◌, ◌^◌, ◌≡◌, refl, arith}
use skate.Prelude.{Bool, true, false, Option, none, some, List, [], length}
use mathlib.Core.Path.{subst}
use skate.Results.{ResultType, success, failure, ParsingResult}
use skate.Utf.Encode.{CharSize}
use skate.Number.Floating.{FloatLibrary}
use skate.Json.Value.{Value, Values, Members, null, array, object, no_values, no_members}
use skate.Json.Value.{ReadOptions, nested, nesting_limit_reached, push_value, insert_member}
use skate.Json.ReadString.{skip_whitespace, starts_with_char, read_json_string}
use skate.Json.ReadScalar.{
  Kind, unknown, text, list, map, boolean_word, null_word, numeric, kind_of,
}
use skate.Json.ReadScalar.{
  read_null, read_bool, read_number, open_bracket, Next, stop, item, next_item,
}
use skate.Json.ReadValue.{
  then_read, failed, as_string, Outcome, read_value, read_elements, read_members, from_json,
}
use skate.Json.Steps.{list_at, map_at, switch, elements_at, key_then, members_at}
use skate.Json.Text.{depth, values_depth, members_depth}
use skate.Json.Invariant.{
  IsOrdered, AreOrdered, IsMap, IsFlat, push_value-AreOrdered, push_value-depth,
}
use skate.Json.Invariant.{
  insert_member-IsMap, insert_member-depth, read_null-IsFlat, read_bool-IsFlat, read_number-IsFlat,
}

-- What a step that succeeds gives has a property.
abbrev Each : {O : Type 0} → (O → Type 0) → Option (ParsingResult (List ℕ) O) → Type 0
Each P none = Unit {0}
Each P (some r) = r.result ≡ success → P r.output

module _ (beyond : ℕ → ℕ) (f : FloatLibrary) (d : CharSize) where
  -- A value in order, no deeper than the limit unless it is what a failure leaves.
  abbrev Sound : ℕ → Outcome beyond f d → Type 0
  Sound limit none = Unit {0}
  Sound limit (some r) = IsOrdered r.output × (r.result ≡ success → depth r.output ≤ limit)

  abbrev Fits : ℕ → Value (List ℕ) f.Double → Type 0
  Fits limit v = IsOrdered v × (depth v ≤ limit)

  Sound-Each : (limit : ℕ) (x : Outcome beyond f d) → Sound limit x → Each (Fits limit) x
  Sound-Each limit none h = tt
  Sound-Each limit (some r) (a, b) = λ s. (a, b s)

  then_Sound :
      {O : Type 0} (P : O → Type 0) (limit : ℕ) (x : Option (ParsingResult (List ℕ) O))
      (j : Value (List ℕ) f.Double) (next : List ℕ → O → Outcome beyond f d)
      → Each P x
      → IsOrdered j
      → ((rest : List ℕ) (v : O) → P v → Sound limit (next rest v))
      → Sound limit (then_read x (failed beyond f d j) next)
  then_Sound P limit none j next h i k = tt
  then_Sound P limit (some r) j next h i k =
      elim r.result
          as (λ t.
            (t ≡ success → P r.output)
            → Sound limit (elim t as (λ z. Outcome beyond f d) [
              | success ↦ next r.input r.output
              | failure ↦ some (failed beyond f d j r.input)
            ])) [ success ↦ λ s. k r.input r.output (s refl) | failure ↦ λ s. (i, λ e. cc e) ]
        h

  abbrev room : ReadOptions → ℕ
  room o = o.max_nesting - o.current_nesting

  abbrev ValueSound : ℕ → Type 0
  ValueSound fuel =
      (o : ReadOptions) (s : List ℕ) (j : Value (List ℕ) f.Double)
      → o.max_nesting < 2 ^ 32
      → IsFlat j
      → Sound (room o) (read_value beyond f d fuel o s j)

  abbrev ElementsSound : ℕ → Type 0
  ElementsSound fuel =
      (o : ReadOptions) (a : Values (List ℕ) f.Double) (more : Bool) (s : List ℕ)
      → o.max_nesting < 2 ^ 32
      → AreOrdered a
      → values_depth a ≤ room o
      → Sound (suc (room o)) (read_elements beyond f d fuel o a more s)

  abbrev MembersSound : ℕ → Type 0
  MembersSound fuel =
      (o : ReadOptions) (m : Members (List ℕ) f.Double) (more : Bool) (s : List ℕ)
      → o.max_nesting < 2 ^ 32
      → IsMap m
      → members_depth m ≤ room o
      → Sound (suc (room o)) (read_members beyond f d fuel o m more s)

  Sound-le : (n m : ℕ) (x : Outcome beyond f d) → n ≤ m → Sound n x → Sound m x
  Sound-le n m none h s = tt
  Sound-le n m (some r) h (a, b) = (a, λ e. omega (arith, b e))

  flat_Sound :
      (limit : ℕ) (r : ParsingResult (List ℕ) (Value (List ℕ) f.Double))
      → IsFlat r.output
      → Sound limit (some r)
  flat_Sound limit r (a, b) = (a, λ e. omega arith)

  string_Sound :
      (limit : ℕ) (x : Option (ParsingResult (List ℕ) (List ℕ)))
      → Sound limit (as_string beyond f d x)
  unfolding as_string depth
  string_Sound limit none = tt
  string_Sound limit (some r) = (tt, λ e. omega arith)

  -- A bracket that could be opened leaves a level for what it holds.
  opened_room :
      (o : ReadOptions) (bracket : ℕ) (l : List ℕ)
      → o.max_nesting < 2 ^ 32
      → (open_bracket o bracket l).result ≡ success
      → suc (room (nested o)) ≤ room o
  unfolding open_bracket nested nesting_limit_reached
  opened_room o bracket l m e = ground arith

  list_Sound :
      (fuel : ℕ) (o : ReadOptions) (first : List ℕ) (r : ResultType)
      → o.max_nesting < 2 ^ 32
      → (r ≡ success → suc (room (nested o)) ≤ room o)
      → ElementsSound fuel
      → Sound (room o) (list_at beyond f d fuel o (record { input = first; result = r }))
  unfolding nested values_depth
  list_Sound fuel o first failure m h e = (tt, λ x. cc x)
  list_Sound fuel o first success m h e =
      Sound-le (suc (room (nested o))) (room o) _ (h refl)
        (e (nested o) no_values false first m tt (omega arith))

  map_Sound :
      (fuel : ℕ) (o : ReadOptions) (first : List ℕ) (r : ResultType)
      → o.max_nesting < 2 ^ 32
      → (r ≡ success → suc (room (nested o)) ≤ room o)
      → MembersSound fuel
      → Sound (room o) (map_at beyond f d fuel o (record { input = first; result = r }))
  unfolding nested members_depth
  map_Sound fuel o first failure m h e = (tt, λ x. cc x)
  map_Sound fuel o first success m h e =
      Sound-le (suc (room (nested o))) (room o) _ (h refl)
        (e (nested o) no_members false first m tt (omega arith))

  switch-Sound :
      (k : Kind) (fuel : ℕ) (o : ReadOptions) (j : Value (List ℕ) f.Double) (l : List ℕ)
      → o.max_nesting < 2 ^ 32
      → IsFlat j
      → ElementsSound fuel
      → MembersSound fuel
      → Sound (room o) (switch beyond f d fuel o j l k)
  switch-Sound unknown fuel o j l m h e g = (h.0, λ x. cc x)
  switch-Sound text fuel o j l m h e g = string_Sound (room o) (read_json_string beyond d l [])
  switch-Sound list fuel o j l m h e g =
      let r = open_bracket o b'[' l in
      list_Sound fuel o r.input r.result m (opened_room o b'[' l m) e
  switch-Sound map fuel o j l m h e g =
      let r = open_bracket o b'{' l in
      map_Sound fuel o r.input r.result m (opened_room o b'{' l m) g
  switch-Sound boolean_word fuel o j l m h e g =
      flat_Sound (room o) (read_bool l) (read_bool-IsFlat f.Double l)
  switch-Sound null_word fuel o j l m h e g =
      flat_Sound (room o) (read_null l) (read_null-IsFlat f.Double l)
  switch-Sound numeric fuel o j l m h e g =
      flat_Sound (room o) (read_number beyond f l j) (read_number-IsFlat beyond f l j h)

  elements_Sound :
      (k : Next) (fuel : ℕ) (o : ReadOptions) (a : Values (List ℕ) f.Double)
      → o.max_nesting < 2 ^ 32
      → AreOrdered a
      → values_depth a ≤ room o
      → ValueSound fuel
      → ElementsSound fuel
      → Sound (suc (room o)) (elements_at beyond f d fuel o a k)
  unfolding depth
  elements_Sound (stop rest r) fuel o a m h l v e = (h, λ x. omega arith)
  elements_Sound (item here) fuel o a m h l v e =
      then_Sound (Fits (room o)) (suc (room o)) (read_value beyond f d fuel o here null) (array a) _
        (Sound-Each (room o) _ (v o here null m (tt, refl))) h
        (λ rest x (p, q).
          e o (push_value a x) true rest m (push_value-AreOrdered a x h p)
            (omega (arith, push_value-depth a x)))

  key_Sound :
      (fuel : ℕ) (o : ReadOptions) (a : Members (List ℕ) f.Double) (key first : List ℕ)
      (r : ResultType)
      → o.max_nesting < 2 ^ 32
      → IsMap a
      → members_depth a ≤ room o
      → ValueSound fuel
      → MembersSound fuel
      → Sound
          (suc (room o))
          (key_then beyond f d fuel o a key (record { input = first; result = r }))
  unfolding depth
  key_Sound fuel o a key first failure m h l v e = (h, λ x. cc x)
  key_Sound fuel o a key first success m h l v e =
      then_Sound (Fits (room o)) (suc (room o)) (read_value beyond f d fuel o first null) (object a)
        _ (Sound-Each (room o) _ (v o first null m (tt, refl))) h
        (λ rest x (p, q).
          e o (insert_member a key x) true rest m (insert_member-IsMap a key x h p)
            (omega (arith, insert_member-depth a key x)))

  any_Each : {O : Type 0} (x : Option (ParsingResult (List ℕ) O)) → Each (λ v. Unit {0}) x
  any_Each none = tt
  any_Each (some r) = λ e. tt

  members_Sound :
      (k : Next) (fuel : ℕ) (o : ReadOptions) (a : Members (List ℕ) f.Double)
      → o.max_nesting < 2 ^ 32
      → IsMap a
      → members_depth a ≤ room o
      → ValueSound fuel
      → MembersSound fuel
      → Sound (suc (room o)) (members_at beyond f d fuel o a k)
  unfolding depth
  members_Sound (stop rest r) fuel o a m h l v e = (h, λ x. omega arith)
  members_Sound (item here) fuel o a m h l v e =
      then_Sound (λ v. Unit {0}) (suc (room o)) (read_json_string beyond d here []) (object a) _
        (any_Each (read_json_string beyond d here [])) h
        (λ rest key u.
          let c = starts_with_char (skip_whitespace rest) b':' in
          key_Sound fuel o a key c.input c.result m h l v e)

  mutual
    unfolding read_value read_elements read_members

    value_sound : (fuel : ℕ) → ValueSound fuel
    value_sound zero o s j m h = tt
    value_sound (suc fuel) o s j m h =
        let l = skip_whitespace s in
        switch-Sound (kind_of l) fuel o j l m h (elements_sound fuel) (members_sound fuel)

    elements_sound : (fuel : ℕ) → ElementsSound fuel
    elements_sound zero o a more s m h l = tt
    elements_sound (suc fuel) o a more s m h l =
        elements_Sound (next_item b']' more (skip_whitespace s)) fuel o a m h l (value_sound fuel)
          (elements_sound fuel)

    members_sound : (fuel : ℕ) → MembersSound fuel
    members_sound zero o a more s m h l = tt
    members_sound (suc fuel) o a more s m h l =
        members_Sound (next_item b'}' more (skip_whitespace s)) fuel o a m h l (value_sound fuel)
          (members_sound fuel)

  of_Sound :
      (limit : ℕ) (x : Outcome beyond f d) (r : ParsingResult (List ℕ) (Value (List ℕ) f.Double))
      → x ≡ some r
      → Sound limit x
      → IsOrdered r.output × (r.result ≡ success → depth r.output ≤ limit)
  of_Sound limit x r e h = subst (Sound limit) e h

  -- In whatever `from_json` reads from any input, failures included, the keys of every object ascend,
  -- and if it succeeds the value is nested no deeper than the options leave room for. The limit is a
  -- number of 32 bits.
  pub from_json-IsOrdered :
      (o : ReadOptions) (s : List ℕ) (r : ParsingResult (List ℕ) (Value (List ℕ) f.Double))
      → o.max_nesting < 2 ^ 32
      → from_json beyond f d o s ≡ some r
      → IsOrdered r.output
        × (r.result ≡ success → depth r.output ≤ o.max_nesting - o.current_nesting)
  unfolding from_json depth
  from_json-IsOrdered o s r m e =
      of_Sound (room o) _ r e (value_sound (2 * length s + 1) o s null m (tt, refl))
