-- ===== src/Json/ValueRoundTrip.antt =====
-- `to_json` and `from_json` of skate/io/adapters/json.h: values are read back from what was written.
use skate.Prelude.{
  ℕ, ◌+◌, ◌*◌, ◌≤◌, ◌<◌, ◌^◌, ◌≡◌, refl, sym, ap, ◌∙◌, arith, some, List, [], ◌++◌, append-nil,
  length,
}
use skate.Results.{success, OutputResult}
use skate.Utf.Unicode.{Unicode}
use skate.Utf.Encode.{CharSize}
use skate.Number.Floating.{FloatLibrary}
use skate.Json.Value.{Value, WriteOptions, ReadOptions, null}
use skate.Json.WriteValue.{to_json}
use skate.Json.WriteText.{to_json-text}
use skate.Json.ReadString.{skip_whitespace}
use skate.Json.ReadValue.{from_json}
use skate.Json.ReadText.{read_value-text}
use skate.Json.Text.{text_of, value_of, normal, depth, IsPlain}
use skate.Json.TextHead.{cost-text, text-StartsValue, skip_graphic}

module _ (beyond : ℕ → ℕ) (f : FloatLibrary) where
  from_json-text :
      (d : CharSize) (w : WriteOptions) (r : ReadOptions) (v : Value (List Unicode) f.Double)
      → IsPlain d v
      → r.max_nesting < 2 ^ 32
      → r.current_nesting + depth v ≤ r.max_nesting
      → from_json beyond f d r (text_of w v)
        ≡ some (record { input = []; output = value_of d (normal v); result = success })
  unfolding from_json
  from_json-text d w r v p m n =
      read_value-text beyond f d w v (2 * length (text_of w v) + 1) r (text_of w v) [] null at p
        (omega (arith, cost-text d w v p)) m n tt
    where
      at : skip_whitespace (text_of w v) ≡ text_of w v ++ []
      at =
          ap skip_whitespace (sym (append-nil (text_of w v)))
          ∙ skip_graphic (text_of w v) [] (text-StartsValue d w v p)

  -- A value is written by `to_json`, with any indentation and with its strings in units of one size,
  -- and `from_json` of what was written, into strings with units of another size, succeeds, reads
  -- all of it, and gives the same value, but that an integer of 64 bits with a sign that is not
  -- negative is an unsigned one. The value has no floating point numbers, its integers are in range,
  -- its strings and keys hold characters that every encoding carries and no vertical tab, the keys
  -- of its objects are in the order of both encodings, and it is nested no deeper than the reader's
  -- options allow, whose limit is a number of 32 bits.
  pub from_json-to_json :
      (c d : CharSize) (w : WriteOptions) (r : ReadOptions) (v : Value (List Unicode) f.Double)
      → IsPlain c v
      → IsPlain d v
      → r.max_nesting < 2 ^ 32
      → r.current_nesting + depth v ≤ r.max_nesting
      → (t : OutputResult (List ℕ)) × (to_json f c w (value_of c v) ≡ some t)
        × (t.result ≡ success)
        × (from_json beyond f d r t.output
            ≡ some (record { input = []; output = value_of d (normal v); result = success }))
  from_json-to_json c d w r v p q m n = (
    record { output = text_of w v; result = success },
    to_json-text f c w v p,
    refl,
    from_json-text d w r v q m n,
  )
