-- ===== src/ThreadBuffer/Guard.antt =====
-- What the guard of a pipe of skate/io/buffer.h does to the pipe and to the threads that wait.
use skate.Prelude.{◌-◌, ◌≡◌, refl, arith, ◌==◌, ◌&&◌, ◌||◌, not, if◌then◌else◌, Bool, true, false}
use skate.Prelude.{[], ◌++◌}
use skate.IoBuffer.Vector.{StdVector}
use skate.IoBuffer.Queue.{Op}
use skate.ThreadBuffer.Defs.{Shared, Call, nobody, all_consumers, all_producers, turn, at_end}
use skate.ThreadBuffer.Defs.{write_one, write_many, read_one, read_some, read_all, read_swap}
use skate.ThreadBuffer.Defs.{
  unregister_consumer, unregister_producer, producers_available, read_turn,
}
use skate.ThreadBuffer.System.{System, is_write, change}
use skate.ThreadBuffer.Turns.{is_none}
use skate.ThreadBuffer.Pipe.{Pipe, End, left_end, right_end, other, Guard, sink, source}
use skate.ThreadBuffer.Pipe.{close_read, close_write, clear_guard, pipe_turn, pipe_at_end}

module _ {A : Type 0} where
  read_turn_returns :
      (v : StdVector) (d : A) (s : Shared A) (op : Op A) (w : Bool)
      → producers_available s ≡ false
      → is_none (read_turn v d s op w).reply ≡ false
  unfolding read_turn producers_available
  read_turn_returns v d s op w n = ground (arith, n)

  turn_returns :
      (v : StdVector) (d : A) (s : Shared A) (c : Call A)
      → is_write c ≡ false
      → producers_available s ≡ false
      → is_none (turn v d s c).reply ≡ false
  unfolding turn
  turn_returns v d s (write_one x w) k n = absurd (cc k)
  turn_returns v d s (write_many xs w) k n = absurd (cc k)
  turn_returns v d s (read_one w) k n = read_turn_returns v d s Op.read w n
  turn_returns v d s (read_some i w) k n = read_turn_returns v d s (Op.read_into i) w n
  turn_returns v d s (read_all w) k n = read_turn_returns v d s Op.read_all_into w n
  turn_returns v d s (read_swap i w) k n = read_turn_returns v d s (Op.read_all_swap i) w n

  -- The last producer has gone.
  gone_lem :
      (s : Shared A)
      → s.producer_registered ≡ true
      → s.producer_count ≡ 1
      → let s' = (unregister_producer s).0 in
        (producers_available s' ≡ false)
        × (at_end s' ≡ (s.buffer.buffer_size == 0))
        × ((unregister_producer s).1 ≡ all_consumers)
  unfolding unregister_producer producers_available at_end
  gone_lem s r n = ground (arith, r, n)

  -- A shared buffer that has lost a consumer, or a producer.
  abbrev pub fewer_consumers : Shared A → Shared A
  fewer_consumers s = record s { consumer_count = s.consumer_count - 1 }

  abbrev pub fewer_producers : Shared A → Shared A
  fewer_producers s = record s { producer_count = s.producer_count - 1 }

  -- `clear` of a guard closes one channel at a call, that of the reader first, and returns whether a
  -- channel was open. When the reader is open its source loses a consumer, the writer stays open and the
  -- sink is as it was; otherwise, if the writer is open, the sink loses a producer and the source is as
  -- it was. The producers of the source are notified when it loses the last consumer, and the consumers
  -- of the sink when it loses the last producer.
  pub clear_guard_lem :
      (p : Pipe A) (e : End) (g : Guard)
      → let c = clear_guard p e g in
        (c.just_closed ≡ (g.consumer || g.producer))
        × (c.guard.consumer ≡ false)
        × (c.guard.producer ≡ (g.consumer && g.producer))
        × (source c.pipe e ≡ (if g.consumer then fewer_consumers (source p e) else source p e))
        × (sink c.pipe e
            ≡ (if g.producer && not g.consumer then fewer_producers (sink p e) else sink p e))
        × (c.source_notice
            ≡ (if g.consumer && (source p e).consumer_count == 1 then all_producers else nobody))
        × (c.sink_notice ≡ (
            if g.producer && not g.consumer && (sink p e).producer_count == 1
            then all_consumers
            else nobody))
  unfolding clear_guard close_read close_write unregister_consumer unregister_producer
  clear_guard_lem p left_end g = ground arith
  clear_guard_lem p right_end g = ground arith

  -- When the only registered producer of a channel closes its end, every call that waits for data at
  -- the other end is woken, no read there waits any more, and that end is at the end of its data exactly
  -- when its buffer is empty.
  pub close_write_returns :
      (v : StdVector) (d : A) (p : Pipe A) (e : End) (g : Guard) (c : Call A) (t : System A)
      → g.producer ≡ true
      → (sink p e).producer_registered ≡ true
      → (sink p e).producer_count ≡ 1
      → is_write c ≡ false
      → let q = close_write p e g in
        let t' = change t (sink q.pipe e, q.sink_notice) in
        (t'.consumers ≡ [])
        × (t'.ready ≡ t.consumers ++ t.ready)
        × (is_none (pipe_turn v d q.pipe (other e) c).1.reply ≡ false)
        × (pipe_at_end q.pipe (other e) ≡ ((sink p e).buffer.buffer_size == 0))
  unfolding close_write pipe_turn pipe_at_end
  close_write_returns v d p left_end g c t o r n w =
      let (a, b, m) = gone_lem p.left_buffer r n in
      let returns = turn_returns v d (unregister_producer p.left_buffer).0 c w a in
      rw (o, w, m) (refl, refl, returns, b)
  close_write_returns v d p right_end g c t o r n w =
      let (a, b, m) = gone_lem p.right_buffer r n in
      let returns = turn_returns v d (unregister_producer p.right_buffer).0 c w a in
      rw (o, w, m) (refl, refl, returns, b)
