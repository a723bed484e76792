-- ===== src/Ingest/Buffer/Delivery.antt =====
-- internal/ingest/buffer.go: runs of appends and drains, and the events that go through the buffer.
use mathlib.Core.List.{append-nil, append_assoc}
use logpond.Base.{
  ℕ, zero, suc, ◌+◌, ◌≤◌, ◌<◌, ◌≡◌, refl, sym, ap, ◌∙◌, true, false, List, [], ◌∷◌, ◌++◌, arith,
  length, take, drop, take-append-drop, length-append, length-drop, Bool-cases, inl, inr, ltb,
}
use logpond.Ingest.Buffer.{
  Buffer, new_buffer, flusher_batch, append, drain_some, drain, System, flush, drain_once, woken,
}

not_ltb : (a b : ℕ) → ltb a b ≡ false → b ≤ a
not_ltb a b h = ground arith

pub new_batch :
    (Event : Type 0) (n capacity : ℕ) → 0 < flusher_batch n (new_buffer {Event = Event} capacity)
unfolding flusher_batch new_buffer
new_batch Event n capacity = ground arith

module _ {Event : Type 0} where
  abbrev pub concat : List (List Event) → List Event
  concat [] = []
  concat (b ∷ bs) = b ++ concat bs

  concat-snoc : (bs : List (List Event)) (b : List Event) → concat (bs ++ b ∷ []) ≡ concat bs ++ b
  concat-snoc [] b = append-nil b
  concat-snoc (a ∷ bs) b = ap (◌++◌ a) (concat-snoc bs b) ∙ sym (append_assoc a (concat bs) b)

  -- Within the capacity, and counted.
  pub record IsWell (b : Buffer Event) : Type 0 where
    pub within : length b.events ≤ b.cap
    pub counted : b.fill ≡ length b.events
    pub room : 0 < b.cap

  -- Interleavings of Append and the flush goroutine, with the events that Append accepted so far.
  pub data Runs (batch : ℕ) : List Event → System Event → Type 0 where
    start : (capacity : ℕ) → Runs batch [] (record { buffer = new_buffer capacity; flushed = [] })
    appended :
        {acc : List Event} {s : System Event} (es : List Event)
        → Runs batch acc s
        → (append es s.buffer).taken ≡ true
        → Runs batch (acc ++ es) (record s { buffer = (append es s.buffer).buffer })
    refused :
        {acc : List Event} {s : System Event} (es : List Event)
        → Runs batch acc s
        → (append es s.buffer).taken ≡ false
        → Runs batch acc (record s { buffer = (append es s.buffer).buffer })
    ticked :
        {acc : List Event} {s : System Event}
        → Runs batch acc s
        → Runs batch acc (drain_once batch s)
    signalled :
        {acc : List Event} {s : System Event}
        → Runs batch acc s
        → s.buffer.notify ≡ true
        → Runs batch acc (drain_once batch (woken s))

  -- The events that were flushed and those in the buffer are what was accepted.
  pub record Delivers (acc : List Event) (s : System Event) : Type 0 where
    pub in_order : concat s.flushed ++ s.buffer.events ≡ acc
    pub well : IsWell s.buffer

  -- Append takes the whole batch or leaves the buffer as it is.
  append-events :
      (es : List Event) (b : Buffer Event)
      → IsWell b
      → IsWell (append es b).buffer
        × ((append es b).taken ≡ true → (append es b).buffer.events ≡ b.events ++ es)
        × ((append es b).taken ≡ false → (append es b).buffer ≡ b)
  unfolding append
  append-events [] b h = (h, (λ e. sym (append-nil b.events)), (λ e. refl))
  append-events (e ∷ es) b h = elim (Bool-cases (ltb b.cap (length b.events + length (e ∷ es)))) [
    | inl full ↦ rw full (h, (λ k. absurd cc), (λ k. refl))
    | inr fits ↦ rw fits (
      (record {
        within = omega (arith, length-append b.events (e ∷ es), not_ltb b.cap _ fits);
        counted = refl;
        room = h.room;
      }),
      (λ k. refl),
      (λ k. absurd cc),
    )
  ]

  pub drain_some-split :
      (n : ℕ) (es : List Event) (b : Buffer Event)
      → b.events ≡ es
      → IsWell b
      → IsWell (drain_some n es b).1
        × ((drain_some n es b).0 ++ (drain_some n es b).1.events ≡ b.events)
  drain_some-split n [] b e h = (h, refl)
  drain_some-split n (x ∷ es) b e h = (
    record {
      within = omega (arith, length-drop n b.events, h.within);
      counted = refl;
      room = h.room;
    },
    ap (λ l. take n l ++ drop n b.events) (sym e) ∙ take-append-drop n b.events,
  )

  drain-split :
      (n : ℕ) (b : Buffer Event)
      → IsWell b
      → IsWell (drain n b).1 × ((drain n b).0 ++ (drain n b).1.events ≡ b.events)
  unfolding drain
  drain-split zero b h = (h, refl)
  drain-split (suc n) b h = drain_some-split (suc n) b.events b refl h

  pub flush-Delivers :
      (acc out : List Event) (b : Buffer Event) (s : System Event)
      → concat s.flushed ++ (out ++ b.events) ≡ acc
      → IsWell b
      → Delivers acc (flush out b s)
  flush-Delivers acc [] b s e h = record { in_order = e; well = h }
  flush-Delivers acc (x ∷ out) b s e h = record {
    in_order =
        ap (λ l. l ++ b.events) (concat-snoc s.flushed (x ∷ out))
        ∙ append_assoc (concat s.flushed) (x ∷ out) b.events
        ∙ e;
    well = h;
  }

  drain_once-Delivers :
      (batch : ℕ) (acc : List Event) (s : System Event)
      → Delivers acc s
      → Delivers acc (drain_once batch s)
  unfolding drain_once
  drain_once-Delivers batch acc s h =
      let (well, split) = drain-split batch s.buffer h.well in
      flush-Delivers acc (drain batch s.buffer).0 (drain batch s.buffer).1 s
        (ap (◌++◌ (concat s.flushed)) split ∙ h.in_order) well

  -- However appends, ticks and signals interleave: the flushed batches, one behind the other, and then
  -- the buffer hold the accepted events, each once and in the order in which they were accepted. The
  -- buffer stays within its capacity, and `fill` is its length.
  pub Runs-Delivers :
      (batch : ℕ) (acc : List Event) (s : System Event) → Runs batch acc s → Delivers acc s
  unfolding new_buffer
  Runs-Delivers batch acc s (start capacity) = record {
    in_order = refl;
    well = record { within = omega arith; counted = refl; room = ground arith };
  }
  Runs-Delivers batch acc s (appended {acc = old} {s = before} es r taken) =
      let h = Runs-Delivers batch old before r in
      let (well, grows, same) = append-events es before.buffer h.well in
      record {
        in_order =
            ap (◌++◌ (concat before.flushed)) (grows taken)
            ∙ sym (append_assoc (concat before.flushed) before.buffer.events es)
            ∙ ap (λ l. l ++ es) h.in_order;
        well = well;
      }
  Runs-Delivers batch acc s (refused {s = before} es r taken) =
      let h = Runs-Delivers batch acc before r in
      let (well, grows, same) = append-events es before.buffer h.well in
      record {
        in_order = ap (λ b. concat before.flushed ++ b.events) (same taken) ∙ h.in_order;
        well = well;
      }
  Runs-Delivers batch acc s (ticked {s = before} r) =
      drain_once-Delivers batch acc before (Runs-Delivers batch acc before r)
  Runs-Delivers batch acc s (signalled {s = before} r on) =
      drain_once-Delivers batch acc (woken before)
        (woken-Delivers (Runs-Delivers batch acc before r))
    where
      woken-Delivers : Delivers acc before → Delivers acc (woken before)
      woken-Delivers h = record {
        in_order = h.in_order;
        well = record { within = h.well.within; counted = h.well.counted; room = h.well.room };
      }
