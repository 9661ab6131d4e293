-- ===== src/ThreadBuffer/Pipe.antt =====
-- `io_threadsafe_pipe` of skate/io/buffer.h, two shared buffers that two ends use crosswise, and the
-- guards that register an end with them.
use skate.Prelude.{ℕ, if◌then◌else◌, Bool, true, false}
use skate.IoBuffer.Vector.{StdVector}
use skate.ThreadBuffer.Defs.{Shared, Call, Notice, nobody, Turn, turn, create_shared, at_end}
use skate.ThreadBuffer.Defs.{register_consumer, register_producer, unregister_consumer}
use skate.ThreadBuffer.Defs.{unregister_producer}
use skate.ThreadBuffer.System.{is_write}

pub record Pipe (A : Type 0) : Type 0 where
  pub left_buffer : Shared A
  pub right_buffer : Shared A

pub data End : Type 0 where
  left_end : End
  right_end : End

abbrev pub other : End → End
other left_end = right_end
other right_end = left_end

-- Whether the two guards of an end still hold their buffer.
pub record Guard : Type 0 where
  pub consumer : Bool
  pub producer : Bool

-- What closing a guard leaves, whom it notifies, and its result.
pub record Closed (A : Type 0) : Type 0 where
  pub pipe : Pipe A
  pub guard : Guard
  pub source_notice : Notice
  pub sink_notice : Notice
  pub just_closed : Bool

module _ {A : Type 0} where
  abbrev pub sink : Pipe A → End → Shared A
  sink p left_end = p.left_buffer
  sink p right_end = p.right_buffer

  abbrev pub source : Pipe A → End → Shared A
  source p left_end = p.right_buffer
  source p right_end = p.left_buffer

  abbrev pub set_sink : Pipe A → End → Shared A → Pipe A
  set_sink p left_end s = record p { left_buffer = s }
  set_sink p right_end s = record p { right_buffer = s }

  abbrev pub set_source : Pipe A → End → Shared A → Pipe A
  set_source p left_end s = record p { right_buffer = s }
  set_source p right_end s = record p { left_buffer = s }

  unfoldable pub pipe_at_end : Pipe A → End → Bool
  unfolding at_end
  pipe_at_end p e = at_end (source p e)

  -- The guard of the consumer registers first.
  unfoldable pub open_guard : Pipe A → End → Pipe A × Guard
  open_guard p e =
      let q = set_source p e (register_consumer (source p e)) in
      (set_sink q e (register_producer (sink q e)), record { consumer = true; producer = true })

  -- Closing a guard unregisters once. Whom it notifies are calls at the source for the consumer and at
  -- the sink for the producer.
  unfoldable pub close_read : Pipe A → End → Guard → Closed A
  close_read p e g =
      let (s, n) = unregister_consumer (source p e) in
      if g.consumer
      then record {
        pipe = set_source p e s;
        guard = record g { consumer = false };
        source_notice = n;
        sink_notice = nobody;
        just_closed = true;
      }
      else record {
        pipe = p;
        guard = g;
        source_notice = nobody;
        sink_notice = nobody;
        just_closed = false;
      }

  unfoldable pub close_write : Pipe A → End → Guard → Closed A
  close_write p e g =
      let (s, n) = unregister_producer (sink p e) in
      if g.producer
      then record {
        pipe = set_sink p e s;
        guard = record g { producer = false };
        source_notice = nobody;
        sink_notice = n;
        just_closed = true;
      }
      else record {
        pipe = p;
        guard = g;
        source_notice = nobody;
        sink_notice = nobody;
        just_closed = false;
      }

  -- `close_read() || close_write()`.
  unfoldable pub clear_guard : Pipe A → End → Guard → Closed A
  unfolding close_read close_write
  clear_guard p e g =
      let c = close_read p e g in if c.just_closed then c else close_write c.pipe e c.guard

module _ {A : Type 0} (v : StdVector) (d : A) where
  unfoldable pub make_pipe : ℕ → Pipe A
  make_pipe limit = record {
    left_buffer = create_shared v limit;
    right_buffer = create_shared v limit;
  }

  -- A turn of a call at an end: it writes to the sink and reads from the source.
  unfoldable pub pipe_turn : Pipe A → End → Call A → Pipe A × Turn A
  pipe_turn p e c =
      let w = turn v d (sink p e) c in
      let r = turn v d (source p e) c in
      if is_write c then (set_sink p e w.shared, w) else (set_source p e r.shared, r)
