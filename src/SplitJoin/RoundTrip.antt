-- ===== src/SplitJoin/RoundTrip.antt =====
-- `join` of what `split` gives, of skate/containers/split_join.h.
use skate.Prelude.{ℕ, zero, suc, ◌+◌, ◌≤◌, ◌<◌, ◌≡◌, refl, sym, ap, ◌∙◌, arith}
use skate.Prelude.{
  Bool-cases, inl, inr, true, false, Option, none, some, List, [], ◌∷◌, ◌++◌, append-nil,
  append_assoc,
}
use skate.Prelude.{length, take, drop, length-take, length-append, length-drop}
use skate.SplitJoin.Defs.{tjoin_loop, tjoin, join, is_prefix, find_in, substr, characters}
use skate.SplitJoin.Defs.{split_loop, tsplit_append, split}

-- Every text with a separator behind it, and before it.
abbrev closed : List ℕ → List (List ℕ) → List ℕ
closed sep [] = []
closed sep (s ∷ list) = s ++ (sep ++ closed sep list)

abbrev opened : List ℕ → List (List ℕ) → List ℕ
opened sep [] = []
opened sep (s ∷ list) = sep ++ (s ++ opened sep list)

tjoin_loop-opened :
    (sep : List ℕ) (list : List (List ℕ)) (out : List ℕ)
    → tjoin_loop sep (λ s. s) true list out ≡ out ++ opened sep list
unfolding tjoin_loop
tjoin_loop-opened sep [] out = sym (append-nil out)
tjoin_loop-opened sep (s ∷ list) out =
    tjoin_loop-opened sep list ((out ++ sep) ++ s) ∙ simp append_assoc

opened-closed :
    (sep : List ℕ) (list : List (List ℕ)) (last : List ℕ)
    → opened sep (list ++ (last ∷ [])) ≡ sep ++ (closed sep list ++ last)
opened-closed sep [] last = ap (λ l. sep ++ l) (append-nil last)
opened-closed sep (s ∷ list) last =
    ap (λ l. sep ++ (s ++ l)) (opened-closed sep list last) ∙ simp append_assoc

join-closed :
    (sep : List ℕ) (list : List (List ℕ)) (last : List ℕ)
    → join (list ++ (last ∷ [])) sep ≡ closed sep list ++ last
unfolding join tjoin tjoin_loop
join-closed sep [] last = refl
join-closed sep (s ∷ list) last =
    tjoin_loop-opened sep (list ++ (last ∷ [])) s
    ∙ ap (λ l. s ++ l) (opened-closed sep list last)
    ∙ simp append_assoc

closed-append :
    (sep : List ℕ) (list : List (List ℕ)) (s : List ℕ)
    → closed sep (list ++ (s ∷ [])) ≡ closed sep list ++ (s ++ sep)
closed-append sep [] s = ap (λ l. s ++ l) (append-nil sep)
closed-append sep (x ∷ list) s =
    ap (λ l. x ++ (sep ++ l)) (closed-append sep list s) ∙ simp append_assoc

is_prefix-append : (sep s : List ℕ) → is_prefix sep s ≡ true → s ≡ sep ++ drop (length sep) s
is_prefix-append [] s h = refl
is_prefix-append (c ∷ sep) [] h = cc h
is_prefix-append (c ∷ sep) (x ∷ s) h = ground (arith, is_prefix-append sep s)

abbrev Found : List ℕ → List ℕ → Option ℕ → Type 0
Found s sep none = Unit {0}
Found s sep (some k) = s ≡ take k s ++ (sep ++ drop (k + length sep) s)

shift : (k n : ℕ) → suc (k + n) ≡ suc k + n
shift k n = omega arith

Found-here : (s sep : List ℕ) → is_prefix sep s ≡ true → Found s sep (some 0)
Found-here s sep e = is_prefix-append sep s e ∙ ap (λ n. sep ++ drop n s) (omega arith)

Found-later :
    (x : ℕ) (s sep : List ℕ) (r : Option ℕ)
    → Found s sep r
    → Found (x ∷ s) sep (elim r [ none ↦ none | some k ↦ some (suc k) ])
Found-later x s sep none h = tt
Found-later x s sep (some k) h =
    ap (λ l. x ∷ l) h ∙ ap (λ n. x ∷ (take k s ++ (sep ++ drop n (x ∷ s)))) (shift k (length sep))

find_in-Found : (s sep : List ℕ) → Found s sep (find_in s sep)
find_in-Found [] sep = elim (Bool-cases (is_prefix sep [])) [
  | inl e ↦ rw e (Found-here [] sep e)
  | inr e ↦ rw e tt
]
find_in-Found (x ∷ s) sep = elim (Bool-cases (is_prefix sep (x ∷ s))) [
  | inl e ↦ rw e (Found-here (x ∷ s) sep e)
  | inr e ↦ rw e (Found-later x s sep (find_in s sep) (find_in-Found s sep))
]

drop_nil : (n : ℕ) → drop {A = ℕ} n [] ≡ []
drop_nil zero = refl
drop_nil (suc n) = refl

drop-drop : (m n : ℕ) (s : List ℕ) → drop n (drop m s) ≡ drop (m + n) s
drop-drop zero n s = ap (λ k. drop k s) (omega arith)
drop-drop (suc m) n [] = drop_nil n ∙ sym (drop_nil (suc m + n))
drop-drop (suc m) n (x ∷ s) = drop-drop m n s ∙ ap (λ k. drop k (x ∷ s)) (shift m n)

-- What the loop ends with when `start` is behind the texts `list` and their separators.
abbrev Joins : List ℕ → List ℕ → Option (List (List ℕ)) → Type 0
Joins string sep none = ⊥
Joins string sep (some list) = join list sep ≡ string

module _ (string sep : List ℕ) where
  abbrev Looped : ℕ → Type 0
  Looped fuel =
      (start : ℕ) (list : List (List ℕ))
      → 0 < length sep
      → start ≤ length string
      → length string < start + fuel
      → closed sep list ++ drop start string ≡ string
      → Joins string sep (split_loop string sep false fuel start list)

  abbrev round_of : ℕ → ℕ → List (List ℕ) → Option ℕ → Option (List (List ℕ))
  round_of fuel start list r = elim r [
    | none ↦ some (list ++ (drop start string ∷ []))
    | some k ↦
        split_loop string sep false fuel (start + k + length sep)
          (list ++ (substr string start k ∷ []))
  ]

  Found-fits :
      (s : List ℕ) (k : ℕ) → 0 < length sep → Found s sep (some k) → k + length sep ≤ length s
  Found-fits s k n h = omega (
    arith,
    ap length h,
    length-append (take k s) (sep ++ drop (k + length sep) s),
    length-append sep (drop (k + length sep) s),
    length-take k s,
    length-drop (k + length sep) s,
  )

  closed_more :
      (start k : ℕ) (list : List (List ℕ))
      → Found (drop start string) sep (some k)
      → closed sep list ++ drop start string ≡ string
      → closed sep (list ++ (substr string start k ∷ [])) ++ drop (start + k + length sep) string
        ≡ string
  closed_more start k list h e =
      let piece = substr string start k in
      let rest = drop (k + length sep) (drop start string) in
      let d : drop (start + k + length sep) string ≡ rest =
        ap (λ n. drop n string) (omega arith) ∙ sym (drop-drop start (k + length sep) string) in
      ap (λ l. closed sep (list ++ (piece ∷ [])) ++ l) d
      ∙ ap (λ l. l ++ rest) (closed-append sep list piece)
      ∙ append_assoc (closed sep list) (piece ++ sep) rest
      ∙ ap (λ l. closed sep list ++ l) (append_assoc piece sep rest ∙ sym h)
      ∙ e

  round_of-Joins :
      (r : Option ℕ) (fuel start : ℕ) (list : List (List ℕ))
      → Found (drop start string) sep r
      → 0 < length sep
      → start ≤ length string
      → length string < start + suc fuel
      → closed sep list ++ drop start string ≡ string
      → Looped fuel
      → Joins string sep (round_of fuel start list r)
  round_of-Joins none fuel start list h n a b e g = join-closed sep list (drop start string) ∙ e
  round_of-Joins (some k) fuel start list h n a b e g =
      let l = Found-fits (drop start string) k n h in
      let m = length-drop start string in
      g (start + k + length sep) (list ++ (substr string start k ∷ [])) n (omega arith)
        (omega arith) (closed_more start k list h e)

  loop_joins : (fuel : ℕ) → Looped fuel
  unfolding split_loop
  loop_joins zero start list n a b e = absurd (omega arith)
  loop_joins (suc fuel) start list n a b e =
      round_of-Joins (find_in (drop start string) sep) fuel start list
        (find_in-Found (drop start string) sep) n a b e (loop_joins fuel)

tjoin_loop-characters : (s out : List ℕ) → tjoin_loop [] (λ t. t) true (characters s) out ≡ out ++ s
unfolding tjoin_loop
tjoin_loop-characters [] out = sym (append-nil out)
tjoin_loop-characters (x ∷ s) out =
    tjoin_loop-characters s ((out ++ []) ++ (x ∷ [])) ∙ simp (append-nil, append_assoc)

join-characters : (s : List ℕ) → join (characters s) [] ≡ s
unfolding join tjoin tjoin_loop
join-characters [] = refl
join-characters (x ∷ s) = tjoin_loop-characters s (x ∷ [])

of_Joins :
    (string sep : List ℕ) (r : Option (List (List ℕ)))
    → Joins string sep r
    → (list : List (List ℕ)) × (r ≡ some list) × (join list sep ≡ string)
of_Joins string sep none h = absurd h
of_Joins string sep (some list) h = (list, refl, h)

-- `split` of any string by any separator, the empty one included, returns, if it keeps the empty
-- parts, and `join` of the parts with the separator gives the string back.
pub join-split :
    (string sep : List ℕ)
    → (list : List (List ℕ)) × (split string sep false ≡ some list) × (join list sep ≡ string)
unfolding split tsplit_append
join-split string [] = (characters string, refl, join-characters string)
join-split string (c ∷ sep) = of_Joins string (c ∷ sep) _ (
    loop_joins string (c ∷ sep) (suc (length string)) 0 [] (omega arith) (omega arith) (omega arith)
      refl)
