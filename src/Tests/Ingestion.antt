-- ===== src/Tests/Ingestion.antt =====
-- internal/ingest on small runs. An event is a number here.
use logpond.Base.{ℕ, ◌+◌, ◌≡◌, refl, not, [], ◌∷◌, All, count}
use logpond.Ingest.Buffer.{new_buffer, flusher_batch, append, System, drain_once, woken, drain_all}
use logpond.Ingest.Buffer.Delivery.{Runs, start, appended, signalled, Delivers, Runs-Delivers}
use logpond.Ingest.Buffer.Shutdown.{AllFlushed, drain_all-flusher_batch}
use logpond.Ingest.Fanout.{
  Subscription, new_subscription, publish_one, subscribe, snapshot, send, cancel, subscriber_count,
}
use logpond.Ingest.Fanout.Trace.{Trace, fresh, offered, Accounts, Trace-Accounts}
use logpond.Ingest.Fanout.Interleaved.{Hub, IsConsistent, Runs-IsConsistent}
use logpond.Ingest.Fanout.Interleaved as Interleaved

abbrev empty_system : System ℕ
unfolding new_buffer
empty_system = record { buffer = new_buffer 3; flushed = [] }

-- Two events, which make the buffer half full, and one more behind the signal.
abbrev two : System ℕ
two = record empty_system { buffer = (append (7 ∷ 8 ∷ []) (empty_system.buffer)).buffer }

two-Runs : Runs 1 (7 ∷ 8 ∷ []) two
unfolding append new_buffer
two-Runs = appended (7 ∷ 8 ∷ []) (start 3) refl

abbrev after_signal : System ℕ
after_signal = drain_once 1 (woken two)

after_signal-Runs : Runs 1 (7 ∷ 8 ∷ []) after_signal
unfolding append new_buffer
after_signal-Runs = signalled two-Runs refl

Runs-Delivers_example : Delivers (7 ∷ 8 ∷ []) after_signal
Runs-Delivers_example = Runs-Delivers 1 (7 ∷ 8 ∷ []) after_signal after_signal-Runs

-- With no batch size given, the flusher takes the capacity.
abbrev default_batch : ℕ
default_batch = flusher_batch 0 (new_buffer {Event = ℕ} 3)

two-default_batch : Runs default_batch (7 ∷ 8 ∷ []) two
unfolding append new_buffer
two-default_batch = appended (7 ∷ 8 ∷ []) (start 3) refl

drain_all-flusher_batch_example : AllFlushed (7 ∷ 8 ∷ []) (drain_all default_batch two)
drain_all-flusher_batch_example = drain_all-flusher_batch 0 3 (7 ∷ 8 ∷ []) two two-default_batch

-- A queue of one, offered two events.
abbrev slow : Subscription ℕ
slow = publish_one 8 (publish_one 7 (new_subscription 1))

slow-Trace : Trace (7 ∷ 8 ∷ []) [] slow
unfolding new_subscription publish_one
slow-Trace = offered 8 (offered 7 (fresh 1) refl) refl

slow_drops : slow.dropped ≡ 1
unfolding new_subscription publish_one
slow_drops = refl

Trace-Accounts_example : Accounts (7 ∷ 8 ∷ []) [] slow
Trace-Accounts_example = Trace-Accounts (7 ∷ 8 ∷ []) [] slow slow-Trace

-- A Publish beside a Cancel: the last send finds the subscription closed, and the removal is to come.
abbrev two_listed : Hub ℕ
two_listed = record { entries = subscribe 2 (subscribe 1 []); sends = [] }

abbrev to_send : Hub ℕ
to_send = record two_listed { sends = snapshot (7 ∷ []) two_listed.entries }

abbrev half_cancelled : Hub ℕ
half_cancelled = record to_send { entries = cancel 0 to_send.entries }

abbrev hub : Hub ℕ
hub = record {
  entries = send 0 7 half_cancelled.entries;
  sends = record { key = 0; events = [] } ∷ record { key = 1; events = 7 ∷ [] } ∷ [];
}

hub-Runs : Interleaved.Runs hub
unfolding subscribe snapshot
hub-Runs =
    Interleaved.sending 0 7 [] [] (record { key = 1; events = 7 ∷ [] } ∷ [])
      (Interleaved.closing 0 (
        Interleaved.published (7 ∷ [])
          (Interleaved.subscribed 2 (Interleaved.subscribed 1 Interleaved.empty))))
      refl

still_counted : subscriber_count hub.entries ≡ 2
unfolding subscriber_count subscribe cancel send new_subscription
still_counted = refl

Runs-IsConsistent_example :
    All IsConsistent hub.entries
    × (subscriber_count hub.entries
        ≡ count (λ x. not x.sub.closed) hub.entries + count (λ x. x.removing) hub.entries)
Runs-IsConsistent_example = Runs-IsConsistent hub hub-Runs
