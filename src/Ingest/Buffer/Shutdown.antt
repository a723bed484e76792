-- ===== src/Ingest/Buffer/Shutdown.antt =====
-- The last drain of internal/ingest/buffer.go.
use mathlib.Core.List.{append-nil}
use logpond.Base.{
  ℕ, zero, suc, ◌≤◌, ◌<◌, ◌≡◌, refl, sym, ap, ◌∙◌, List, [], ◌∷◌, ◌++◌, Option, none, some, arith,
  length, take, length-drop,
}
use logpond.Ingest.Buffer.{
  new_buffer, flusher_batch, drained, drain_some, drain, System, flush_then, drain_rounds,
  drain_all,
}
use logpond.Ingest.Buffer.Delivery.{
  new_batch, concat, Runs, Delivers, drain_some-split, flush-Delivers, Runs-Delivers,
}

module _ {Event : Type 0} where
  -- What the end of `Run` leaves.
  abbrev pub AllFlushed : List Event → Option (System Event) → Type 0
  AllFlushed acc none = ⊥
  AllFlushed acc (some s) = (concat s.flushed ≡ acc) × (s.buffer.events ≡ [])

  round-AllFlushed :
      (fuel n : ℕ) (acc es : List Event) (s : System Event)
      → s.buffer.events ≡ es
      → length es ≤ fuel
      → Delivers acc s
      → ((next : System Event)
          → length next.buffer.events < fuel
          → Delivers acc next
          → AllFlushed acc (drain_rounds fuel (suc n) next))
      → AllFlushed acc (
          flush_then
            (drain_rounds fuel (suc n))
            (drain_some (suc n) es s.buffer).0
            (drain_some (suc n) es s.buffer).1
            s)
  round-AllFlushed fuel n acc [] s e f h later =
      (sym (append-nil (concat s.flushed)) ∙ ap (◌++◌ (concat s.flushed)) (sym e) ∙ h.in_order, e)
  round-AllFlushed fuel n acc (x ∷ es) s e f h later =
      let (well, split) = drain_some-split (suc n) (x ∷ es) s.buffer e h.well in
      later _ (omega (arith, length-drop (suc n) s.buffer.events, ap length e)) (
        flush-Delivers acc (x ∷ take n es) (drained (suc n) s.buffer) s
          (ap (◌++◌ (concat s.flushed)) split ∙ h.in_order) well)

  drain_rounds-AllFlushed :
      (fuel n : ℕ) (acc : List Event) (s : System Event)
      → length s.buffer.events < fuel
      → Delivers acc s
      → AllFlushed acc (drain_rounds fuel (suc n) s)
  unfolding drain_rounds drain
  drain_rounds-AllFlushed zero n acc s f h = absurd (omega arith)
  drain_rounds-AllFlushed (suc fuel) n acc s f h =
      round-AllFlushed fuel n acc s.buffer.events s refl (omega arith) h
        (λ next small k. drain_rounds-AllFlushed fuel n acc next small k)

  drain_all-AllFlushed :
      (batch : ℕ) (acc : List Event) (s : System Event)
      → 0 < batch
      → Runs batch acc s
      → AllFlushed acc (drain_all batch s)
  unfolding drain_all
  drain_all-AllFlushed zero acc s p r = absurd (omega arith)
  drain_all-AllFlushed (suc n) acc s p r =
      drain_rounds-AllFlushed (suc (length s.buffer.events)) n acc s (omega arith)
        (Runs-Delivers (suc n) acc s r)

  -- After any run of a flusher with the batch size that NewFlusher gives it, drainAll ends: every
  -- accepted event has been flushed, once and in order, and the buffer is empty.
  pub drain_all-flusher_batch :
      (n capacity : ℕ) (acc : List Event) (s : System Event)
      → Runs (flusher_batch n (new_buffer {Event = Event} capacity)) acc s
      → AllFlushed acc (drain_all (flusher_batch n (new_buffer {Event = Event} capacity)) s)
  drain_all-flusher_batch n capacity acc s r =
      drain_all-AllFlushed (flusher_batch n (new_buffer {Event = Event} capacity)) acc s
        (new_batch Event n capacity) r
