-- ===== src/ThreadBuffer/Hungry.antt =====
-- The calls of consumers of an `io_threadsafe_buffer` of skate/io/buffer.h that are about to read.
use skate.Prelude.{ℕ, zero, suc, ◌+◌, ◌≤◌, ◌<◌, ◌≡◌, ◌⊎◌, sym, refl, arith}
use skate.Prelude.{◌||◌, if◌then◌else◌, true, false, List, [], ◌∷◌, ◌++◌, length}
use skate.Prelude.{Option, none, some, All, get_elem?, none-ne-some}
use skate.IoBuffer.Vector.{StdVector}
use skate.IoBuffer.Contents.{IsValid}
use skate.ThreadBuffer.Defs.{Call}
use skate.ThreadBuffer.Defs.{write_one, write_many, read_one, read_some, read_all, read_swap}
use skate.ThreadBuffer.Defs.{producers_available}
use skate.ThreadBuffer.System.{System, is_write, Step, remove_at}
use skate.ThreadBuffer.System.{start_system, put}
use skate.ThreadBuffer.Turns.{is_hungry}

module _ {A : Type 0} where
  -- The calls that are about to read an element.
  abbrev pub hungry : List (Call A) → ℕ
  hungry [] = 0
  hungry (c ∷ cs) = if is_hungry c then suc (hungry cs) else hungry cs

  -- No call waits for elements that it will not take, as `read` of at most 0 elements does.
  abbrev pub AllServed : List (Call A) → Type 0
  AllServed cs = All (λ c. (is_write c || is_hungry c) ≡ true) cs

  pub hungry-append : (xs ys : List (Call A)) → hungry (xs ++ ys) ≡ hungry xs + hungry ys
  hungry-append [] ys = omega arith
  hungry-append (x ∷ xs) ys = ground (arith, hungry-append xs ys)

  pub write_not_hungry : (c : Call A) → is_write c ≡ true → is_hungry c ≡ false
  write_not_hungry (write_one x w) e = refl
  write_not_hungry (write_many xs w) e = refl
  write_not_hungry (read_one w) e = absurd (cc e)
  write_not_hungry (read_some n w) e = absurd (cc e)
  write_not_hungry (read_all w) e = absurd (cc e)
  write_not_hungry (read_swap n w) e = absurd (cc e)

  some_inj : {x y : Call A} → some x ≡ some y → x ≡ y
  some_inj e = cc e

  pub hungry-remove_at :
      (i : ℕ) (cs : List (Call A)) (c : Call A)
      → get_elem? cs i ≡ some c
      → hungry cs ≡ (if is_hungry c then suc (hungry (remove_at i cs)) else hungry (remove_at i cs))
  hungry-remove_at i [] c e = absurd (none-ne-some e)
  hungry-remove_at zero (x ∷ cs) c e = rw (some_inj e) refl
  hungry-remove_at (suc i) (x ∷ cs) c e = ground (arith, hungry-remove_at i cs c e)

  pub Served_at :
      (i : ℕ) (cs : List (Call A)) (c : Call A)
      → get_elem? cs i ≡ some c
      → AllServed cs
      → (is_write c || is_hungry c) ≡ true
  Served_at i [] c e a = absurd (none-ne-some e)
  Served_at zero (x ∷ cs) c e a = rw (sym (some_inj e)) a.0
  Served_at (suc i) (x ∷ cs) c e a = Served_at i cs c e a.1

  pub hungry-put :
      (k : ℕ) (cs ready : List (Call A))
      → All (λ c. is_hungry c ≡ true) cs
      → k < length cs
      → hungry (put (get_elem? cs k) ready) ≡ suc (hungry ready)
  hungry-put k [] ready a l = absurd (omega arith)
  hungry-put zero (c ∷ cs) ready a l = rw a.0 refl
  hungry-put (suc k) (c ∷ cs) ready a l = hungry-put k cs ready a.1 (omega arith)

  pub hungry-put_le :
      (o : Option (Call A)) (ready : List (Call A)) → hungry ready ≤ hungry (put o ready)
  hungry-put_le none ready = omega arith
  hungry-put_le (some c) ready = ground arith

  pub All-remove_at :
      (P : Call A → Type 0) (i : ℕ) (cs : List (Call A)) → All P cs → All P (remove_at i cs)
  All-remove_at P i [] a = tt
  All-remove_at P zero (c ∷ cs) a = a.1
  All-remove_at P (suc i) (c ∷ cs) a = (a.0, All-remove_at P i cs a.1)

module _ {A : Type 0} (v : StdVector) (d : A) where
  -- If a consumer waits there may be producers, and for each element a consumer is ready.
  abbrev pub Attended : System A → Type 0
  Attended t =
      (t.consumers ≡ [])
      ⊎ ((t.shared.buffer.buffer_size ≤ hungry t.ready) × (producers_available t.shared ≡ true))

  abbrev pub Waits : System A → Type 0
  Waits t = IsValid v t.shared.buffer × All (λ c. is_hungry c ≡ true) t.consumers × Attended t

  -- The calls wait for data, and a limit is one that a vector can reach.
  pub data Served : System A → Type 0 where
    start : (limit : ℕ) → limit ≤ v.max_elements → Served (start_system v d limit)
    later :
        {s t : System A}
        → Served s
        → Step v d s t
        → AllServed t.ready
        → t.shared.buffer.buffer_limit ≤ v.max_elements
        → Served t
