-- ===== src/Utf/Ranges.antt =====
-- The loops over a range: `utf_encode_range`, `utf_decode_range`, and the encoding iterator.
use skate.Prelude.{ℕ, zero, suc, ◌≤◌, ◌≡◌, refl, sym, ap, ◌∙◌, false, Bool-cases}
use skate.Prelude.{inl, inr, ◌⊎◌, List, [], ◌∷◌, ◌++◌, arith, All, length, some}
use skate.Prelude.{append-nil, append_assoc, length-append}
use skate.Results.{success, failure, ParsingResult}
use skate.Utf.Unicode.{Unicode, is_valid}
use skate.Utf.Encode.{CharSize, utf_encode_all}
use skate.Utf.Encode.{assign}
use skate.Utf.Decode.{utf_decode_next, utf_decode_range, push_back}
use skate.Utf.Codec.{Codec}

-- What an output iterator holds after the characters `us`.
abbrev pub write_all {ℓ} : {O : Type ℓ} → (O → Unicode → O) → O → List Unicode → O
write_all put out [] = out
write_all put out (u ∷ us) = write_all put (put out u) us

pub write_all-push_back : (out us : List Unicode) → write_all push_back out us ≡ out ++ us
write_all-push_back out [] = sym (append-nil out)
write_all-push_back out (u ∷ us) =
    write_all-push_back (out ++ (u ∷ [])) us ∙ append_assoc out (u ∷ []) us

module _ (c : CharSize) (k : Codec c) where
  abbrev pub forms : List Unicode → List ℕ
  forms [] = []
  forms (u ∷ us) = k.form u ++ forms us

  -- The range encoder succeeds on accepted characters and appends their forms.
  pub utf_encode_all-forms :
      (us : List Unicode) (out : List ℕ)
      → All k.Accepts us
      → utf_encode_all c us out ≡ record { output = out ++ forms us; result = success }
  unfolding utf_encode_all
  utf_encode_all-forms [] out h = ground (arith, append-nil out)
  utf_encode_all-forms (u ∷ us) out (hu, h) = ground (
    arith,
    k.encodes u out hu,
    append_assoc out (k.form u) (forms us),
    utf_encode_all-forms us (out ++ k.form u) h,
  )

  assign-form :
      (u : Unicode) (out : List ℕ)
      → k.Accepts u
      → assign c (record { out = out; result = success }) u
        ≡ record { out = out ++ k.form u; result = success }
  unfolding assign
  assign-form u out h = rw (k.encodes u out h)

  -- So does the iterator, one assignment after the other.
  pub write_all-assign :
      (us : List Unicode) (out : List ℕ)
      → All k.Accepts us
      → write_all (assign c) (record { out = out; result = success }) us
        ≡ record { out = out ++ forms us; result = success }
  write_all-assign [] out h = ground (arith, append-nil out)
  write_all-assign (u ∷ us) out (hu, h) =
      ap (λ it. write_all (assign c) it us) (assign-form u out hu)
      ∙ write_all-assign us (out ++ k.form u) h
      ∙ ap (λ o. record { out = o; result = success }) (append_assoc out (k.form u) (forms us))

  shorter :
      (src : List ℕ) (u : Unicode) (rest : List ℕ) (fuel : ℕ)
      → src ≡ k.form u ++ rest
      → length src ≤ suc fuel
      → length rest ≤ fuel
  shorter src u rest fuel e h =
      omega (arith, ap length e, length-append (k.form u) rest, k.nonempty u)

  module _ {O : Type 0} (put : O → Unicode → O) where
    -- How a decoding of `src` onto `out` ends: `us` are the characters read, and `mid` is where it
    -- stopped, at the end or at units from which no character can be read.
    pub record IsDecodeOf (src : List ℕ) (out : O) (r : ParsingResult (List ℕ) O) : Type 0 where
      pub us : List Unicode
      pub mid : List ℕ
      pub accepted : All k.Accepts us
      pub split : src ≡ forms us ++ mid
      pub written : r.output ≡ write_all put out us
      pub ends :
          (r.result ≡ success) × (mid ≡ []) × (r.input ≡ [])
          ⊎ (r.result ≡ failure)
            × (is_valid (utf_decode_next c mid).character ≡ false)
            × (r.input ≡ (utf_decode_next c mid).input)

    IsDecodeOf-step :
        (src : List ℕ) (out : O) (u : Unicode) (rest : List ℕ) (r : ParsingResult (List ℕ) O)
        → k.Accepts u
        → src ≡ k.form u ++ rest
        → IsDecodeOf rest (put out u) r
        → IsDecodeOf src out r
    IsDecodeOf-step src out u rest r a e d = record {
      us = u ∷ d.us;
      mid = d.mid;
      accepted = (a, d.accepted);
      split =
          e ∙ ap (λ l. k.form u ++ l) d.split ∙ sym (append_assoc (k.form u) (forms d.us) d.mid);
      written = d.written;
      ends = d.ends;
    }

    pub utf_decode_range-IsDecodeOf :
        (fuel : ℕ) (src : List ℕ) (out : O)
        → length src ≤ fuel
        → All k.IsUnit src
        → (r : ParsingResult (List ℕ) O) × (utf_decode_range (utf_decode_next c) put fuel src out
            ≡ some r)
          × IsDecodeOf src out r
    unfolding utf_decode_range
    utf_decode_range-IsDecodeOf fuel [] out h b = (
      record { input = []; output = out; result = success },
      refl,
      record {
        us = [];
        mid = [];
        accepted = tt;
        split = refl;
        written = refl;
        ends = inl (refl, refl, refl);
      },
    )
    utf_decode_range-IsDecodeOf zero (x ∷ xs) out h b = absurd (omega arith)
    utf_decode_range-IsDecodeOf (suc fuel) (x ∷ xs) out h b =
        elim (Bool-cases (is_valid (utf_decode_next c (x ∷ xs)).character)) [
          | inl ok ↦
              let d = utf_decode_next c (x ∷ xs) in
              let (a, e, b') = k.inverts (x ∷ xs) b ok in
              let (r, p, q) =
                utf_decode_range-IsDecodeOf fuel d.input (put out d.character)
                  (shorter (x ∷ xs) d.character d.input fuel e h) b' in
              rw ok (r, p, IsDecodeOf-step (x ∷ xs) out d.character d.input r a e q)
          | inr bad ↦
              let d = utf_decode_next c (x ∷ xs) in
              rw bad (
                record { input = d.input; output = out; result = failure },
                refl,
                record {
                  us = [];
                  mid = x ∷ xs;
                  accepted = tt;
                  split = refl;
                  written = refl;
                  ends = inr (refl, bad, refl);
                },
              )
        ]
