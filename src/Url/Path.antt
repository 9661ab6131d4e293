-- ===== src/Url/Path.antt =====
-- The paths that the class `url` of skate/socket/address.h keeps.
use skate.Prelude.{ℕ, ◌≡◌, refl, ap, ◌∙◌, ◌==◌, not, ◌&&◌}
use skate.Prelude.{arith, if◌then◌else◌, Bool, true, false, List, [], ◌∷◌, ◌++◌, length, map, All}
use skate.Prelude.{codes, Bool-cases, inl, inr, All-append}
use skate.Url.Percent.{Encoding, from_string_helper}
use skate.Url.Defs.{Url, text_eq, pop_element, path_loop, set_path}

-- An element that is no dot segment.
abbrev pub is_segment : List ℕ → Bool
is_segment e = not (text_eq e (codes ".")) && not (text_eq e (codes ".."))

All-pop_element :
    (xs : List (List ℕ))
    → All (λ e. is_segment e ≡ true) xs
    → All (λ e. is_segment e ≡ true) (pop_element xs)
All-pop_element [] a = tt
All-pop_element (x ∷ []) a = tt
All-pop_element (x ∷ y ∷ xs) a = (a.0, All-pop_element (y ∷ xs) a.1)

path_loop-segments :
    (kept path : List (List ℕ))
    → All (λ e. is_segment e ≡ true) kept
    → All (λ e. is_segment e ≡ true) (path_loop kept path)
unfolding path_loop
path_loop-segments kept [] a = a
path_loop-segments kept (e ∷ path) a = elim (Bool-cases (text_eq e (codes ".."))) [
  | inl p ↦ rw p (path_loop-segments (pop_element kept) path (All-pop_element kept a))
  | inr p ↦ elim (Bool-cases (text_eq e (codes "."))) [
    | inr q ↦
        rw (p, q)
          (path_loop-segments (kept ++ (e ∷ [])) path
            (All-append _ kept (e ∷ []) a (rw (p, q) refl, tt)))
    | inl q ↦ elim (Bool-cases (length path == 0)) [
      | inl l ↦
          rw (p, q, l)
            (path_loop-segments (kept ++ ([] ∷ [])) path (All-append _ kept ([] ∷ []) a (refl, tt)))
      | inr l ↦ rw (p, q, l) (path_loop-segments kept path a)
    ]
  ]
]

pop_element-append : (xs : List (List ℕ)) (x : List ℕ) → pop_element (xs ++ (x ∷ [])) ≡ xs
pop_element-append [] x = refl
pop_element-append (y ∷ []) x = refl
pop_element-append (y ∷ z ∷ xs) x = rw (pop_element-append (z ∷ xs) x) refl

no_end : (xs ys : List (List ℕ)) (y : List ℕ) → (length (xs ++ (y ∷ ys)) == 0) ≡ false
no_end [] ys y = ground arith
no_end (x ∷ xs) ys y = ground arith

path_loop-kept :
    (kept path : List (List ℕ)) (e : List ℕ)
    → is_segment e ≡ true
    → path_loop kept (e ∷ path) ≡ path_loop (kept ++ (e ∷ [])) path
unfolding path_loop
path_loop-kept kept path e s =
    let dots : text_eq e (codes "..") ≡ false = ground (arith, s) in
    let dot : text_eq e (codes ".") ≡ false = ground (arith, s) in rw (path_loop, dots, dot) refl

path_loop-parent :
    (kept path : List (List ℕ)) (e : List ℕ)
    → text_eq e (codes "..") ≡ true
    → path_loop kept (e ∷ path) ≡ path_loop (pop_element kept) path
unfolding path_loop
path_loop-parent kept path e s = rw (path_loop, s) refl

-- An element and the `..` behind it go, if they are not at the end.
path_loop-up :
    (kept xs ys : List (List ℕ)) (name up next : List ℕ)
    → is_segment name ≡ true
    → text_eq up (codes "..") ≡ true
    → path_loop kept (xs ++ (name ∷ up ∷ next ∷ ys)) ≡ path_loop kept (xs ++ (next ∷ ys))
unfolding path_loop
path_loop-up kept [] ys name up next s e =
    path_loop-kept kept (up ∷ next ∷ ys) name s
    ∙ path_loop-parent (kept ++ (name ∷ [])) (next ∷ ys) up e
    ∙ ap (λ k. path_loop k (next ∷ ys)) (pop_element-append kept name)
path_loop-up kept (x ∷ xs) ys name up next s e =
    rw (path_loop, no_end xs (up ∷ next ∷ ys) name, no_end xs ys next)
      (path_loop-up
        (if text_eq x (codes "..")
          then pop_element kept
          else if not (text_eq x (codes "."))
          then kept ++ (x ∷ [])
          else kept)
        xs ys name up next s e)

map-append : (f : List ℕ → List ℕ) (xs ys : List (List ℕ)) → map f (xs ++ ys) ≡ map f xs ++ map f ys
map-append f [] ys = refl
map-append f (x ∷ xs) ys = rw (map-append f xs ys) refl

-- `set_path` leaves no dot segment in the path of a URL, whatever elements it is given and however
-- they are encoded. An element that is no dot segment and the `..` behind it have no effect when
-- other elements follow.
pub set_path-segments :
    (beyond : ℕ → ℕ) {Host : Type 0} (u : Url Host) (path before after : List (List ℕ))
    (name up next : List ℕ) (fmt : Encoding)
    → is_segment (from_string_helper beyond name fmt).0 ≡ true
    → text_eq (from_string_helper beyond up fmt).0 (codes "..") ≡ true
    → All (λ e. is_segment e ≡ true) (set_path beyond u path fmt).pathlist
      × ((set_path beyond u (before ++ (name ∷ up ∷ next ∷ after)) fmt).pathlist
          ≡ (set_path beyond u (before ++ (next ∷ after)) fmt).pathlist)
unfolding set_path
set_path-segments beyond u path before after name up next fmt s e =
    let f : List ℕ → List ℕ = λ p. (from_string_helper beyond p fmt).0 in
    (
      path_loop-segments [] (map f path) tt,
      rw (map-append f before (name ∷ up ∷ next ∷ after), map-append f before (next ∷ after))
          (path_loop-up [] (map f before) (map f after) (f name) (f up) (f next) s e),
    )
