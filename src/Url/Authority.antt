-- ===== src/Url/Authority.antt =====
-- How `set_authority` of the class `url` of skate/socket/address.h splits an authority.
use skate.Prelude.{ℕ, zero, suc, ◌+◌, ◌-◌, ◌%◌, ◌^◌, ◌<◌, ◌≤◌, ◌≡◌, refl, sym, ap, ◌∙◌, arith}
use skate.Prelude.{true, false, List, [], ◌∷◌, ◌++◌, length, All, some, codes, drop, take}
use skate.Prelude.{length-append, append_assoc, take-append, drop-append, All-append}
use skate.Url.Percent.{Encoding, contains}
use skate.Url.Defs.{NetworkAddress, Url, set_username, set_password}
use skate.Url.Text.{find_any, between, set_authority, set_hostname}

-- The text has none of these characters.
abbrev pub Without : List ℕ → List ℕ → Type 0
Without chars s = All (λ x. contains chars x ≡ false) s

find_any-append :
    (chars a b : List ℕ) (c at : ℕ)
    → Without chars a
    → contains chars c ≡ true
    → find_any chars (a ++ (c ∷ b)) at ≡ some (at + length a)
find_any-append chars [] b c at n h = rw h (ap some (omega arith))
find_any-append chars (x ∷ a) b c at n h =
    rw (n.0, find_any-append chars a b c (suc at) n.1 h) (ap some (omega arith))

take-all : (n : ℕ) (a : List ℕ) → length a ≤ n → take n a ≡ a
take-all zero [] h = refl
take-all (suc n) [] h = refl
take-all zero (x ∷ a) h = absurd (omega arith)
take-all (suc n) (x ∷ a) h = rw (take-all n a (omega arith)) refl

-- A text that is cut at two characters.
module _ (x y z : List ℕ) (c d : ℕ) (bound : length x + length y + length z + 2 < 2 ^ 64) where
  abbrev joined : List ℕ
  joined = x ++ (c ∷ (y ++ (d ∷ z)))

  abbrev second : ℕ
  second = length x + 1 + length y

  regroup : (x ++ (c ∷ y)) ++ (d ∷ z) ≡ joined
  regroup = append_assoc x (c ∷ y) (d ∷ z)

  length-front : length (x ++ (c ∷ y)) ≡ second
  length-front = omega (arith, length-append x (c ∷ y))

  find_first :
      (chars : List ℕ)
      → Without chars x
      → contains chars c ≡ true
      → find_any chars joined 0 ≡ some (length x)
  find_first chars w h = find_any-append chars x (y ++ (d ∷ z)) c 0 w h ∙ ap some (omega arith)

  find_second :
      (chars : List ℕ)
      → Without chars x
      → contains chars c ≡ false
      → Without chars y
      → contains chars d ≡ true
      → find_any chars joined 0 ≡ some second
  find_second chars w n w' h =
      ap (λ s. find_any chars s 0) (sym regroup)
      ∙ find_any-append chars (x ++ (c ∷ y)) z d 0 (All-append _ x (c ∷ y) w (n, w')) h
      ∙ ap some (omega (arith, length-front))

  before_first : between joined 0 (length x) ≡ x
  before_first =
      take-append ((length x + (2 ^ 64 - 0)) % 2 ^ 64) x (c ∷ (y ++ (d ∷ z))) (omega arith)

  before_second : between joined 0 second ≡ x ++ (c ∷ y)
  before_second =
      ap (λ s. between s 0 second) (sym regroup)
      ∙ take-append ((second + (2 ^ 64 - 0)) % 2 ^ 64) (x ++ (c ∷ y)) (d ∷ z)
          (omega (arith, length-front))

  after_first : drop (length x + 1) joined ≡ y ++ (d ∷ z)
  after_first =
      ap (drop (length x + 1)) (sym (append_assoc x (c ∷ []) (y ++ (d ∷ z))))
      ∙ drop-append (length x + 1) (x ++ (c ∷ [])) (y ++ (d ∷ z))
          (omega (arith, length-append x (c ∷ [])))

  after_second : drop (second + 1) joined ≡ z
  after_second =
      ap (drop (second + 1)) (sym regroup)
      ∙ ap (drop (second + 1)) (sym (append_assoc (x ++ (c ∷ y)) (d ∷ []) z))
      ∙ drop-append (second + 1) ((x ++ (c ∷ y)) ++ (d ∷ [])) z
          (omega (arith, length-front, length-append (x ++ (c ∷ y)) (d ∷ [])))

  middle_part : between joined (length x + 1) second ≡ y
  middle_part =
      ap (take ((second + (2 ^ 64 - (length x + 1))) % 2 ^ 64)) after_first
      ∙ take-append ((second + (2 ^ 64 - (length x + 1))) % 2 ^ 64) y (d ∷ z) (omega arith)

  -- The length wraps round, so that all of the rest is taken.
  wrapped_part : between joined (second + 1) (length x) ≡ z
  wrapped_part =
      ap (take ((length x + (2 ^ 64 - (second + 1))) % 2 ^ 64)) after_second
      ∙ take-all ((length x + (2 ^ 64 - (second + 1))) % 2 ^ 64) z (omega arith)

module _ (net : NetworkAddress) (beyond : ℕ → ℕ) where
  open net use {Host}

  split_lem :
      (u : Url Host) (fmt : Encoding) (s : List ℕ) (end middle : ℕ) (name word rest : List ℕ)
      → find_any (codes "@") s 0 ≡ some end
      → find_any (codes ":") s 0 ≡ some middle
      → between s 0 middle ≡ name
      → between s (middle + 1) end ≡ word
      → drop (end + 1) s ≡ rest
      → set_authority net beyond u s fmt
        ≡ set_hostname net (set_password beyond (set_username beyond u name fmt) word fmt) rest
  unfolding set_authority
  split_lem u fmt s end middle name word rest p q a b c = rw (set_authority, p, q, a, b, c) refl

  -- With a text below 2 ^ 64 characters and parts that contain neither `:` nor `@` but for the last:
  -- a user name, a password and a host, written `user:mid@host`, are set as such; but of a user name,
  -- a host and a port, written `user@mid:host`, the port is set as the password and `user@mid` as the
  -- user name.
  pub set_authority-text :
      (u : Url Host) (fmt : Encoding) (user mid host : List ℕ)
      → Without (codes ":") user
      → Without (codes "@") user
      → Without (codes "@") mid
      → Without (codes ":") mid
      → length user + length mid + length host + 2 < 2 ^ 64
      → (set_authority net beyond u (user ++ (b':' ∷ (mid ++ (b'@' ∷ host)))) fmt
          ≡ set_hostname net (set_password beyond (set_username beyond u user fmt) mid fmt) host)
        × (set_authority net beyond u (user ++ (b'@' ∷ (mid ++ (b':' ∷ host)))) fmt
            ≡ set_hostname net
                (set_password beyond (set_username beyond u (user ++ (b'@' ∷ mid)) fmt) host fmt)
                (mid ++ (b':' ∷ host)))
  unfolding set_authority
  set_authority-text u fmt user mid host n n' m k h = (
    split_lem u fmt _ _ _ _ _ _ (find_second user mid host b':' b'@' h (codes "@") n' refl m refl)
        (find_first user mid host b':' b'@' h (codes ":") n refl)
        (before_first user mid host b':' b'@' h) (middle_part user mid host b':' b'@' h)
        (after_second user mid host b':' b'@' h),
    split_lem u fmt _ _ _ _ _ _ (find_first user mid host b'@' b':' h (codes "@") n' refl)
        (find_second user mid host b'@' b':' h (codes ":") n refl k refl)
        (before_second user mid host b'@' b':' h) (wrapped_part user mid host b'@' b':' h)
        (after_first user mid host b'@' b':' h),
  )
