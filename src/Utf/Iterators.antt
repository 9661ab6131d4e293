-- ===== src/Utf/Iterators.antt =====
-- The output iterators of skate/containers/utf.h that encode what is assigned to them:
-- `utf8_encode_iterator`, `utf16_encode_iterator` and `utf32_encode_iterator`, and how they and
-- `utf_encode_iterator` compare to the encoders of a range.
use skate.Prelude.{ℕ, ◌≡◌, refl, ap, ◌∙◌, List, [], ◌∷◌}
use skate.Results.{ResultType, success, failure}
use skate.Utf.Unicode.{Unicode}
use skate.Utf.Encode.{CharSize, one, two, four, utf_encode, utf_encode_range, EncodeIterator}
use skate.Utf.Encode.{utf8_encode, utf16_encode, utf32_encode, assign, assign_result}
use skate.Utf.Ranges.{write_all}

unfoldable pub utf8_result : ResultType → EncodeIterator → Unicode → EncodeIterator
utf8_result failure it u = it
utf8_result success it u = record {
  out = (utf8_encode u it.out).output;
  result = (utf8_encode u it.out).result;
}

unfoldable pub utf8_assign : EncodeIterator → Unicode → EncodeIterator
utf8_assign it u = utf8_result it.result it u

unfoldable pub utf16_result : ResultType → EncodeIterator → Unicode → EncodeIterator
utf16_result failure it u = it
utf16_result success it u = record {
  out = (utf16_encode u it.out).output;
  result = (utf16_encode u it.out).result;
}

unfoldable pub utf16_assign : EncodeIterator → Unicode → EncodeIterator
utf16_assign it u = utf16_result it.result it u

unfoldable pub utf32_result : ResultType → EncodeIterator → Unicode → EncodeIterator
utf32_result failure it u = it
utf32_result success it u = record {
  out = (utf32_encode u it.out).output;
  result = (utf32_encode u it.out).result;
}

unfoldable pub utf32_assign : EncodeIterator → Unicode → EncodeIterator
utf32_assign it u = utf32_result it.result it u

-- The iterator of a size.
abbrev pub sized_assign : CharSize → EncodeIterator → Unicode → EncodeIterator
sized_assign one = utf8_assign
sized_assign two = utf16_assign
sized_assign four = utf32_assign

sized_assign-assign :
    (c : CharSize) (r : ResultType) (out : List ℕ) (u : Unicode)
    → sized_assign c (record { out = out; result = r }) u
      ≡ assign c (record { out = out; result = r }) u
unfolding assign assign_result utf8_assign utf16_assign utf32_assign utf8_result utf16_result
    utf32_result
sized_assign-assign one success out u = refl
sized_assign-assign one failure out u = refl
sized_assign-assign two success out u = refl
sized_assign-assign two failure out u = refl
sized_assign-assign four success out u = refl
sized_assign-assign four failure out u = refl

-- An iterator that has failed stays as it is.
write_all_failed :
    (c : CharSize) (us : List Unicode) (out : List ℕ)
    → write_all (assign c) (record { out = out; result = failure }) us
      ≡ record { out = out; result = failure }
unfolding assign assign_result
write_all_failed c [] out = refl
write_all_failed c (u ∷ us) out = write_all_failed c us out

write_all-assign_lem :
    (c : CharSize) (us : List Unicode) (r : ResultType) (out : List ℕ)
    → let whole = utf_encode_range (utf_encode c) us out r in
      write_all (assign c) (record { out = out; result = r }) us
      ≡ record { out = whole.output; result = whole.result }
unfolding utf_encode_range assign assign_result
write_all-assign_lem c [] r out = refl
write_all-assign_lem c (u ∷ us) failure out = write_all_failed c us out
write_all-assign_lem c (u ∷ us) success out =
    write_all-assign_lem c us (utf_encode c u out).result (utf_encode c u out).output

write_all-sized_assign :
    (c : CharSize) (us : List Unicode) (it : EncodeIterator)
    → write_all (sized_assign c) it us ≡ write_all (assign c) it us
write_all-sized_assign c [] it = refl
write_all-sized_assign c (u ∷ us) it =
    ap (λ e. write_all (sized_assign c) e us) (sized_assign-assign c it.result it.out u)
    ∙ write_all-sized_assign c us (assign c it u)

-- Assigning any characters to an encoding iterator, valid or not, writes what the encoder of the
-- range writes and fails where it fails, for `utf_encode_iterator` and for the iterator of the size.
pub write_all-utf_encode_range :
    (c : CharSize) (us : List Unicode) (r : ResultType) (out : List ℕ)
    → let whole = utf_encode_range (utf_encode c) us out r in
      let end : EncodeIterator = record { out = whole.output; result = whole.result } in
      (write_all (assign c) (record { out = out; result = r }) us ≡ end)
      × (write_all (sized_assign c) (record { out = out; result = r }) us ≡ end)
write_all-utf_encode_range c us r out = (
  write_all-assign_lem c us r out,
  write_all-sized_assign c us (record { out = out; result = r }) ∙ write_all-assign_lem c us r out,
)
