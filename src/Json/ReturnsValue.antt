-- ===== src/Json/ReturnsValue.antt =====
-- `read_json` of a value of skate/io/adapters/json.h returns on every input.
use skate.Prelude.{ℕ, zero, suc, ◌+◌, ◌*◌, ◌≤◌, ◌<◌, ◌≡◌, refl, arith}
use skate.Prelude.{Bool, true, false, some, List, [], ◌∷◌, length}
use skate.Results.{ResultType, success, failure, InputResult, ParsingResult}
use skate.Utf.Encode.{CharSize}
use skate.Number.Floating.{FloatLibrary}
use skate.Json.Value.{Value, Values, Members, null, array, object, no_values, no_members}
use skate.Json.Value.{ReadOptions, nested, push_value, insert_member}
use skate.Json.ReadString.{skip_whitespace, starts_with_char, read_json_string}
use skate.Json.ReadScalar.{
  Kind, unknown, text, list, map, boolean_word, null_word, numeric, kind_of,
}
use skate.Json.ReadScalar.{open_bracket, Next, stop, item, next_item}
use skate.Json.ReadValue.{failed, read_value, read_elements, read_members, from_json}
use skate.Json.Steps.{list_at, map_at, switch, elements_at, members_at}
use skate.Json.Steps
use skate.Json.Advance.{skip_whitespace_le}
use skate.Json.Returns.{Ends, Reads, Takes, Ends-Reads, Ends-le, starts_with_char-Takes}
use skate.Json.Returns.{read_json_string-Reads}
use skate.Json.ReturnsScalar.{
  null_Reads, bool_Reads, number_Reads, then_Ends, as_string-Reads, open_bracket-Takes, next_input,
  next_item_le,
}

module _ (beyond : ℕ → ℕ) (f : FloatLibrary) (d : CharSize) where
  -- Enough fuel for a value, and for the rest of an array or object.
  abbrev ValueReads : ℕ → Type 0
  ValueReads fuel =
      (o : ReadOptions) (s : List ℕ) (j : Value (List ℕ) f.Double)
      → 2 * length s + 1 ≤ fuel
      → Reads (length s) (read_value beyond f d fuel o s j)

  abbrev ElementsEnd : ℕ → Type 0
  ElementsEnd fuel =
      (o : ReadOptions) (a : Values (List ℕ) f.Double) (more : Bool) (s : List ℕ)
      → 2 * length s + 2 ≤ fuel
      → Ends (length s) (read_elements beyond f d fuel o a more s)

  abbrev MembersEnd : ℕ → Type 0
  MembersEnd fuel =
      (o : ReadOptions) (m : Members (List ℕ) f.Double) (more : Bool) (s : List ℕ)
      → 2 * length s + 2 ≤ fuel
      → Ends (length s) (read_members beyond f d fuel o m more s)

  list_Reads :
      (fuel n : ℕ) (o : ReadOptions) (first : List ℕ) (r : ResultType)
      → 2 * n ≤ fuel
      → ElementsEnd fuel
      → Takes n (record { input = first; result = r })
      → Reads n (list_at beyond f d fuel o (record { input = first; result = r }))
  list_Reads fuel n o first failure h e (a, b) = (_, refl, a, λ x. cc x)
  list_Reads fuel n o first success h e (a, b) =
      Ends-Reads (length first) n _ (b refl)
        (e (nested o) no_values false first (omega (arith, b refl)))

  map_Reads :
      (fuel n : ℕ) (o : ReadOptions) (first : List ℕ) (r : ResultType)
      → 2 * n ≤ fuel
      → MembersEnd fuel
      → Takes n (record { input = first; result = r })
      → Reads n (map_at beyond f d fuel o (record { input = first; result = r }))
  map_Reads fuel n o first failure h e (a, b) = (_, refl, a, λ x. cc x)
  map_Reads fuel n o first success h e (a, b) =
      Ends-Reads (length first) n _ (b refl)
        (e (nested o) no_members false first (omega (arith, b refl)))

  Takes-le : (n m : ℕ) (r : InputResult (List ℕ)) → n ≤ m → Takes n r → Takes m r
  Takes-le n m r h (a, b) = (omega arith, λ x. omega (arith, b x))

  switch-Reads :
      (k : Kind) (fuel n : ℕ) (o : ReadOptions) (j : Value (List ℕ) f.Double) (l : List ℕ)
      → 2 * n ≤ fuel
      → length l ≤ n
      → 0 < n
      → ElementsEnd fuel
      → MembersEnd fuel
      → Reads n (switch beyond f d fuel o j l k)
  switch-Reads unknown fuel n o j l h t z e m = (_, refl, t, λ x. cc x)
  switch-Reads text fuel n o j l h t z e m =
      as_string-Reads beyond f d (length l) n _ t (read_json_string-Reads beyond d l [])
  switch-Reads list fuel n o j l h t z e m =
      let r = open_bracket o b'[' l in
      list_Reads fuel n o r.input r.result h e
        (Takes-le (length l) n r t (open_bracket-Takes o b'[' l))
  switch-Reads map fuel n o j l h t z e m =
      let r = open_bracket o b'{' l in
      map_Reads fuel n o r.input r.result h m
        (Takes-le (length l) n r t (open_bracket-Takes o b'{' l))
  switch-Reads boolean_word fuel n o j l h t z e m = bool_Reads n l t z
  switch-Reads null_word fuel n o j l h t z e m = null_Reads n l t z
  switch-Reads numeric fuel n o j l h t z e m = number_Reads beyond f l j n t z

  start_Reads :
      (fuel n : ℕ) (o : ReadOptions) (j : Value (List ℕ) f.Double) (l : List ℕ)
      → 2 * n ≤ fuel
      → length l ≤ n
      → ElementsEnd fuel
      → MembersEnd fuel
      → Reads n (switch beyond f d fuel o j l (kind_of l))
  unfolding kind_of
  start_Reads fuel n o j [] h t e m = (_, refl, t, λ x. cc x)
  start_Reads fuel n o j (c ∷ l) h t e m =
      switch-Reads (kind_of (c ∷ l)) fuel n o j (c ∷ l) h t (omega arith) e m

  elements_End :
      (k : Next) (fuel n : ℕ) (o : ReadOptions) (a : Values (List ℕ) f.Double)
      → length (next_input k) ≤ n
      → 2 * n + 1 ≤ fuel
      → ValueReads fuel
      → ElementsEnd fuel
      → Ends n (elements_at beyond f d fuel o a k)
  elements_End (stop rest r) fuel n o a t h v e = (_, refl, t)
  elements_End (item here) fuel n o a t h v e =
      then_Ends n (length here) (read_value beyond f d fuel o here null)
        (failed beyond f d (array a)) _ (v o here null (omega arith)) t (λ rest. refl)
        (λ rest x l.
          Ends-le (length rest) n _ (omega arith) (e o (push_value a x) true rest (omega arith)))

  key_End :
      (fuel n : ℕ) (o : ReadOptions) (a : Members (List ℕ) f.Double) (key first : List ℕ)
      (r : ResultType)
      → length first ≤ n
      → (r ≡ success → length first < n)
      → 2 * n ≤ fuel
      → ValueReads fuel
      → MembersEnd fuel
      → Ends n (Steps.key_then beyond f d fuel o a key (record { input = first; result = r }))
  key_End fuel n o a key first failure t s h v m = (_, refl, t)
  key_End fuel n o a key first success t s h v m =
      let l = s refl in
      then_Ends n (length first) (read_value beyond f d fuel o first null)
        (failed beyond f d (object a)) _ (v o first null (omega arith)) t (λ rest. refl)
        (λ rest x k.
          Ends-le (length rest) n _ (omega arith)
            (m o (insert_member a key x) true rest (omega arith)))

  members_End :
      (k : Next) (fuel n : ℕ) (o : ReadOptions) (a : Members (List ℕ) f.Double)
      → length (next_input k) ≤ n
      → 2 * n + 1 ≤ fuel
      → ValueReads fuel
      → MembersEnd fuel
      → Ends n (members_at beyond f d fuel o a k)
  members_End (stop rest r) fuel n o a t h v m = (_, refl, t)
  members_End (item here) fuel n o a t h v m =
      then_Ends n (length here) (read_json_string beyond d here []) (failed beyond f d (object a)) _
        (read_json_string-Reads beyond d here []) t (λ rest. refl)
        (λ rest key l.
          let w = skip_whitespace_le rest in
          let c = starts_with_char (skip_whitespace rest) b':' in
          let (p, q) = starts_with_char-Takes (skip_whitespace rest) b':' in
          key_End fuel n o a key c.input c.result (omega arith) (λ x. omega (arith, q x))
            (omega arith) v m)

  mutual
    unfolding read_value read_elements read_members

    value_returns : (fuel : ℕ) → ValueReads fuel
    value_returns zero o s j h = absurd (omega arith)
    value_returns (suc fuel) o s j h =
        start_Reads fuel (length s) o j (skip_whitespace s) (omega arith) (skip_whitespace_le s)
          (elements_return fuel) (members_return fuel)

    elements_return : (fuel : ℕ) → ElementsEnd fuel
    elements_return zero o a more s h = absurd (omega arith)
    elements_return (suc fuel) o a more s h =
        elements_End (next_item b']' more (skip_whitespace s)) fuel (length s) o a
          (omega (arith, skip_whitespace_le s, next_item_le b']' more (skip_whitespace s)))
          (omega arith) (value_returns fuel) (elements_return fuel)

    members_return : (fuel : ℕ) → MembersEnd fuel
    members_return zero o m more s h = absurd (omega arith)
    members_return (suc fuel) o m more s h =
        members_End (next_item b'}' more (skip_whitespace s)) fuel (length s) o m
          (omega (arith, skip_whitespace_le s, next_item_le b'}' more (skip_whitespace s)))
          (omega arith) (value_returns fuel) (members_return fuel)

  -- `from_json` returns a result on every input, whatever the options: the fuel is enough. What it
  -- leaves is no longer than the input, and shorter if it succeeds.
  pub from_json_returns :
      (o : ReadOptions) (s : List ℕ)
      → (r : ParsingResult (List ℕ) (Value (List ℕ) f.Double)) × (from_json beyond f d o s ≡ some r)
        × (length r.input ≤ length s)
        × (r.result ≡ success → length r.input < length s)
  unfolding from_json
  from_json_returns o s = value_returns (2 * length s + 1) o s null (omega arith)
