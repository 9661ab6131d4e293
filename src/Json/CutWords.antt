-- ===== src/Json/CutWords.antt =====
-- `null`, `true` and `false` cut off by the end of the input, in `read_json` of
-- skate/io/adapters/json.h and `starts_with` of skate/io/adapters/core.h.
use skate.Prelude.{
  ℕ, suc, ◌*◌, ◌≡◌, refl, sym, ap, ◌∙◌, arith, Bool, true, false, Option, none, some,
}
use skate.Prelude.{List, [], ◌∷◌, ◌++◌, get_or, drop, length, codes}
use skate.Results.{success}
use skate.Utf.Encode.{CharSize}
use skate.Number.Floating.{FloatLibrary}
use skate.Json.Value.{Value, null, boolean, ReadOptions}
use skate.Json.ReadString.{skip_whitespace, starts_with}
use skate.Json.ReadScalar.{
  boolean_word, null_word, kind_of, kind_of_char, read_null, read_bool, read_word, bool_result,
}
use skate.Json.ReadValue.{from_json, read_value}
use skate.Json.Steps.{switch_at}

-- The three words, and what they mean.
abbrev pub spelling : Option Bool → List ℕ
spelling none = codes "null"
spelling (some true) = codes "true"
spelling (some false) = codes "false"

abbrev pub meaning : {S D : Type 0} → Option Bool → Value S D
meaning none = null
meaning (some b) = boolean b

starts_with_prefix :
    (p q : List ℕ) → starts_with p (p ++ q) ≡ record { input = []; result = success }
unfolding starts_with
starts_with_prefix [] q = refl
starts_with_prefix (x ∷ p) q = ground (arith, starts_with_prefix p q)

starts_with_cut :
    (p q s : List ℕ) → p ++ q ≡ s → starts_with p s ≡ record { input = []; result = success }
starts_with_cut p q s e = ap (starts_with p) (sym e) ∙ starts_with_prefix p q

module _ (beyond : ℕ → ℕ) (f : FloatLibrary) (d : CharSize) where
  cut_null :
      (fuel : ℕ) (o : ReadOptions) (p q : List ℕ)
      → p ++ q ≡ codes "ull"
      → read_value beyond f d (suc fuel) o (b'n' ∷ p) null
        ≡ some (record { input = []; output = null; result = success })
  unfolding kind_of kind_of_char skip_whitespace read_null starts_with
  cut_null fuel o p q e =
      switch_at beyond f d fuel o (b'n' ∷ p) (b'n' ∷ p) null null_word refl refl
      ∙ ap (λ r. some (record { input = r.input; output = null; result = r.result }))
          (starts_with_cut p q (codes "ull") e)

  cut_true :
      (fuel : ℕ) (o : ReadOptions) (p q : List ℕ)
      → p ++ q ≡ codes "rue"
      → read_value beyond f d (suc fuel) o (b't' ∷ p) null
        ≡ some (record { input = []; output = boolean true; result = success })
  unfolding kind_of kind_of_char skip_whitespace read_bool read_word bool_result
  cut_true fuel o p q e =
      switch_at beyond f d fuel o (b't' ∷ p) (b't' ∷ p) null boolean_word refl refl
      ∙ ap (λ r. some (record { input = r.input; output = boolean true; result = r.result }))
          (starts_with_cut p q (codes "rue") e)

  cut_false :
      (fuel : ℕ) (o : ReadOptions) (p q : List ℕ)
      → p ++ q ≡ codes "alse"
      → read_value beyond f d (suc fuel) o (b'f' ∷ p) null
        ≡ some (record { input = []; output = boolean false; result = success })
  unfolding kind_of kind_of_char skip_whitespace read_bool read_word bool_result starts_with
  cut_false fuel o p q e =
      switch_at beyond f d fuel o (b'f' ∷ p) (b'f' ∷ p) null boolean_word refl refl
      ∙ ap (λ r. some (record { input = r.input; output = boolean false; result = r.result }))
          (starts_with_cut p q (codes "alse") e)

  cut_word :
      (b : Option Bool) (fuel : ℕ) (o : ReadOptions) (c : ℕ) (p q : List ℕ)
      → c ≡ get_or (spelling b) 0 0
      → p ++ q ≡ drop 1 (spelling b)
      → read_value beyond f d (suc fuel) o (c ∷ p) null
        ≡ some (record { input = []; output = meaning b; result = success })
  cut_word none fuel o c p q h e = rw h (cut_null fuel o p q e)
  cut_word (some true) fuel o c p q h e = rw h (cut_true fuel o p q e)
  cut_word (some false) fuel o c p q h e = rw h (cut_false fuel o p q e)

  -- Any beginning of `null`, `true` or `false` that is not empty, such as the single letter, is read
  -- by `from_json` as the whole word when it is all of the input.
  pub from_json_cut_word :
      (b : Option Bool) (o : ReadOptions) (c : ℕ) (p q : List ℕ)
      → c ∷ (p ++ q) ≡ spelling b
      → from_json beyond f d o (c ∷ p)
        ≡ some (record { input = []; output = meaning b; result = success })
  unfolding from_json
  from_json_cut_word b o c p q e =
      ap (λ k. read_value beyond f d k o (c ∷ p) null) (omega arith)
      ∙ cut_word b (2 * length (c ∷ p)) o c p q (ap (λ l. get_or l 0 0) e) (ap (drop 1) e)
