-- ===== src/Ingest/Buffer.antt =====
-- internal/ingest/buffer.go: `Buffer` and `Flusher`. The channel `notify` holds at most one signal.
pub mod Shutdown
pub mod Delivery
use logpond.Base.{
  ℕ, zero, suc, ◌+◌, ◌*◌, Bool, true, false, not, ◌&&◌, ◌||◌, List, [], ◌∷◌, ◌++◌, Option, none,
  some, length, take, drop, ltb, leb, if◌then◌else◌, ◌==◌,
}

module _ (Event : Type 0) where
  pub record Buffer : Type 0 where
    pub events : List Event
    pub cap : ℕ
    pub notify : Bool
    pub fill : ℕ

  -- Append's result: whether the batch was taken (else ErrBufferFull), and the buffer.
  pub record Appended : Type 0 where
    pub taken : Bool
    pub buffer : Buffer

module _ {Event : Type 0} where
  -- NewBuffer. A capacity or a batch size below 1 is 0 here.
  unfoldable pub new_buffer : ℕ → Buffer Event
  new_buffer capacity = record {
    events = [];
    cap = if capacity == 0 then 1 else capacity;
    notify = false;
    fill = 0;
  }

  -- What Append stores.
  abbrev pub grown : List Event → Buffer Event → Buffer Event
  grown batch b =
      let events = b.events ++ batch in
      record {
        events = events;
        cap = b.cap;
        notify = b.notify || leb b.cap (length events * 2);
        fill = length events;
      }

  -- Append
  unfoldable pub append : List Event → Buffer Event → Appended Event
  append [] b = record { taken = true; buffer = b }
  append (e ∷ es) b =
      if ltb b.cap (length b.events + length (e ∷ es))
      then record { taken = false; buffer = b }
      else record { taken = true; buffer = grown (e ∷ es) b }

  abbrev pub drained : ℕ → Buffer Event → Buffer Event
  drained n b = record b { events = drop n b.events; fill = length (drop n b.events) }

  abbrev pub drain_some : ℕ → List Event → Buffer Event → List Event × Buffer Event
  drain_some n [] b = ([], b)
  drain_some n (e ∷ es) b = (take n (e ∷ es), drained n b)

  -- Drain: the batch, and the buffer without it. `take` and `drop` stop at the end.
  unfoldable pub drain : ℕ → Buffer Event → List Event × Buffer Event
  drain zero b = ([], b)
  drain (suc n) b = drain_some (suc n) b.events b

  -- The batch size that NewFlusher keeps.
  unfoldable pub flusher_batch : ℕ → Buffer Event → ℕ
  flusher_batch batch b = if batch == 0 then b.cap else batch

-- The buffer, and the batches that the FlushFunc was called with.
pub record System (Event : Type 0) : Type 0 where
  pub buffer : Buffer Event
  pub flushed : List (List Event)

module _ {Event : Type 0} where
  abbrev pub flush : List Event → Buffer Event → System Event → System Event
  flush [] b s = record s { buffer = b }
  flush (e ∷ es) b s = record { buffer = b; flushed = s.flushed ++ (e ∷ es) ∷ [] }

  -- drainOnce
  unfoldable pub drain_once : ℕ → System Event → System Event
  drain_once batch s = let (out, b) = drain batch s.buffer in flush out b s

  -- The channel read of `Run`.
  abbrev pub woken : System Event → System Event
  woken s = record s { buffer = record (s.buffer) { notify = false } }

  abbrev pub flush_then :
      (System Event → Option (System Event))
      → List Event
      → Buffer Event
      → System Event
      → Option (System Event)
  flush_then later [] b s = some (record s { buffer = b })
  flush_then later (e ∷ es) b s =
      later (record { buffer = b; flushed = s.flushed ++ (e ∷ es) ∷ [] })

  -- The loop of drainAll. No result: the fuel ran out.
  unfoldable pub drain_rounds : ℕ → ℕ → System Event → Option (System Event)
  drain_rounds zero batch s = none
  drain_rounds (suc fuel) batch s =
      let (out, b) = drain batch s.buffer in flush_then (drain_rounds fuel batch) out b s

  -- drainAll
  unfoldable pub drain_all : ℕ → System Event → Option (System Event)
  drain_all batch s = drain_rounds (suc (length s.buffer.events)) batch s
