-- ===== src/ThreadBuffer/System.antt =====
-- The threads that share an `io_threadsafe_buffer` of skate/io/buffer.h: the calls that can go on and
-- those that wait, and the steps of their turns in any order.
use skate.Prelude.{
  ℕ, zero, suc, ◌<◌, ◌≡◌, ◌⊎◌, Bool, true, false, List, [], ◌∷◌, ◌++◌, Option, none, some,
}
use skate.Prelude.{length, get_elem?}
use skate.IoBuffer.Vector.{StdVector}
use skate.IoBuffer.Queue.{Reply}
use skate.ThreadBuffer.Defs.{Shared, Call, write_one, write_many, Notice, nobody, one_consumer}
use skate.ThreadBuffer.Defs.{all_consumers, all_producers, turn, create_shared}
use skate.ThreadBuffer.Defs.{register_consumer, register_producer, unregister_consumer}
use skate.ThreadBuffer.Defs.{unregister_producer, clear_shared, set_max_size_shared}

-- `ready` calls have begun or have been woken; the others wait on `producer_wait` or `consumer_wait`.
pub record System (A : Type 0) : Type 0 where
  pub shared : Shared A
  pub ready : List (Call A)
  pub producers : List (Call A)
  pub consumers : List (Call A)

-- The list without the element at an index.
abbrev pub remove_at {ℓ} : {A : Type ℓ} → ℕ → List A → List A
remove_at i [] = []
remove_at zero (x ∷ xs) = xs
remove_at (suc i) (x ∷ xs) = x ∷ remove_at i xs

-- The element at an index, if there is one, in front of another list.
abbrev pub put {ℓ} : {A : Type ℓ} → Option A → List A → List A
put none xs = xs
put (some x) xs = x ∷ xs

module _ {A : Type 0} where
  abbrev pub is_write : Call A → Bool
  is_write (write_one x w) = true
  is_write (write_many xs w) = true
  is_write _ = false

  -- Of the waiting consumers `notify_one` wakes any one.
  abbrev pub wake : Notice → ℕ → System A → System A
  wake nobody k t = t
  wake one_consumer k t = record t {
    ready = put (get_elem? t.consumers k) t.ready;
    consumers = remove_at k t.consumers;
  }
  wake all_consumers k t = record t { ready = t.consumers ++ t.ready; consumers = [] }
  wake all_producers k t = record t { ready = t.producers ++ t.ready; producers = [] }

  abbrev pub park : Bool → Call A → System A → System A
  park true c t = record t { producers = c ∷ t.producers }
  park false c t = record t { consumers = c ∷ t.consumers }

  -- A call that has no reply waits.
  abbrev pub finish : Option (Reply A) → Call A → System A → System A
  finish none c t = park (is_write c) c t
  finish (some r) c t = t

  abbrev pub change : System A → Shared A × Notice → System A
  change t (s, n) = wake n 0 (record t { shared = s })

module _ {A : Type 0} (v : StdVector) (d : A) where
  -- The turn of the ready call `c`, which stands at index `i`.
  abbrev pub take_turn : System A → ℕ → Call A → ℕ → System A
  take_turn t i c k =
      let r = turn v d t.shared c in
      wake r.notice k
        (finish r.reply c (record t { shared = r.shared; ready = remove_at i t.ready }))

  pub data Step (t : System A) : System A → Type 0 where
    begin_call : (c : Call A) → Step t (record t { ready = c ∷ t.ready })
    run_turn :
        (i : ℕ) (c : Call A) (k : ℕ)
        → get_elem? t.ready i ≡ some c
        → (t.consumers ≡ []) ⊎ (k < length t.consumers)
        → Step t (take_turn t i c k)
    -- A wait may end without a notification.
    wake_producer :
        (i : ℕ)
        → Step t (record t {
          ready = put (get_elem? t.producers i) t.ready;
          producers = remove_at i t.producers;
        })
    wake_consumer :
        (i : ℕ)
        → Step t (record t {
          ready = put (get_elem? t.consumers i) t.ready;
          consumers = remove_at i t.consumers;
        })
    add_consumer : Step t (record t { shared = register_consumer t.shared })
    add_producer : Step t (record t { shared = register_producer t.shared })
    drop_consumer : Step t (change t (unregister_consumer t.shared))
    drop_producer : Step t (change t (unregister_producer t.shared))
    clear_buffer : Step t (change t (clear_shared v t.shared))
    change_limit : (n : ℕ) → Step t (change t (set_max_size_shared v t.shared n))

  abbrev pub start_system : ℕ → System A
  start_system limit = record {
    shared = create_shared v limit;
    ready = [];
    producers = [];
    consumers = [];
  }

  -- The states that are reached while nobody changes the limit.
  pub data Reach (limit : ℕ) : System A → Type 0 where
    start : Reach limit (start_system limit)
    later :
        {s t : System A}
        → Reach limit s
        → Step s t
        → t.shared.buffer.buffer_limit ≡ limit
        → Reach limit t
