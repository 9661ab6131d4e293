-- ===== src/Json/Concat.antt =====
-- What the loops of `read_json` over arrays and objects have collected, of
-- skate/io/adapters/json.h.
use skate.Prelude.{ℕ, ◌≡◌, refl, ap, true, List}
use skate.Utf.Unicode.{Unicode}
use skate.Utf.Encode.{CharSize}
use skate.Json.Value.{Value, Values, Members, no_values, element, no_members, member, lt_string}
use skate.Json.Value.{push_value, insert_member}
use skate.Json.Text.{encoded, AllAfter}

module _ {S D : Type 0} where
  abbrev pub concat_values : Values S D → Values S D → Values S D
  concat_values no_values xs = xs
  concat_values (element v a) xs = element v (concat_values a xs)

  abbrev pub concat_members : Members S D → Members S D → Members S D
  concat_members no_members xs = xs
  concat_members (member k v m) xs = member k v (concat_members m xs)

  pub concat_values-nil : (a : Values S D) → concat_values a no_values ≡ a
  concat_values-nil no_values = refl
  concat_values-nil (element v a) = ap (element v) (concat_values-nil a)

  pub concat_members-nil : (m : Members S D) → concat_members m no_members ≡ m
  concat_members-nil no_members = refl
  concat_members-nil (member k v m) = ap (member k v) (concat_members-nil m)

module _ {D : Type 0} where
  pub concat_values-push_value :
      (a xs : Values (List ℕ) D) (v : Value (List ℕ) D)
      → concat_values (push_value a v) xs ≡ concat_values a (element v xs)
  unfolding push_value
  concat_values-push_value no_values xs v = refl
  concat_values-push_value (element x a) xs v = ap (element x) (concat_values-push_value a xs v)

  -- Every key of an object comes before a key.
  abbrev pub AllBefore : Members (List ℕ) D → List ℕ → Type 0
  AllBefore no_members key = Unit {0}
  AllBefore (member k v m) key = (lt_string k key ≡ true) × AllBefore m key

  -- A key behind all others is inserted at the end.
  pub concat_members-insert_member :
      (m xs : Members (List ℕ) D) (key : List ℕ) (v : Value (List ℕ) D)
      → AllBefore m key
      → concat_members (insert_member m key v) xs ≡ concat_members m (member key v xs)
  unfolding insert_member
  concat_members-insert_member no_members xs key v h = refl
  concat_members-insert_member (member k x m) xs key v (hk, h) =
      rw hk (ap (member k x) (concat_members-insert_member m xs key v h))

  -- Every key of `m` comes before every key of `xs`.
  module _ (c : CharSize) where
    abbrev pub IsBelow : Members (List ℕ) D → Members (List Unicode) D → Type 0
    IsBelow no_members xs = Unit {0}
    IsBelow (member k v m) xs = AllAfter c k xs × IsBelow m xs

    pub IsBelow-AllBefore :
        (m : Members (List ℕ) D) (k : List Unicode) (v : Value (List Unicode) D)
        (xs : Members (List Unicode) D)
        → IsBelow m (member k v xs)
        → AllBefore m (encoded c k)
    IsBelow-AllBefore no_members k v xs h = tt
    IsBelow-AllBefore (member k' x m) k v xs ((hk, ha), h) = (hk, IsBelow-AllBefore m k v xs h)

    pub insert_member-IsBelow :
        (m : Members (List ℕ) D) (k : List Unicode) (x : Value (List ℕ) D)
        (v : Value (List Unicode) D) (xs : Members (List Unicode) D)
        → IsBelow m (member k v xs)
        → AllAfter c (encoded c k) xs
        → IsBelow (insert_member m (encoded c k) x) xs
    unfolding insert_member
    insert_member-IsBelow no_members k x v xs h a = (a, tt)
    insert_member-IsBelow (member k' y m) k x v xs ((hk, ha), h) a =
        rw hk (ha, insert_member-IsBelow m k x v xs h a)
