-- ===== src/Ingest/Fanout/Interleaved.antt =====
-- internal/ingest/fanout.go: which subscriptions the fan-out holds while Subscribe, Publish and Cancel
-- run side by side.
use logpond.Base.{
  ℕ, ◌+◌, ◌≡◌, refl, ◌∙◌, Bool, true, false, not, ◌&&◌, ◌||◌, List, [], ◌∷◌, ◌++◌, map, arith,
  count, All, All-append, if◌then◌else◌, ◌==◌,
}
use logpond.Ingest.Fanout.{
  Subscription, Entry, Send, Fanout, new_subscription, subscribe, publish_one, snapshot, send, sent,
  close, closed, cancel, remove, removed, subscriber_count,
}

-- The fan-out, and what the calls of Publish have still to send.
pub record Hub (Event : Type 0) : Type 0 where
  pub entries : Fanout Event
  pub sends : List (Send Event)

module _ {Event : Type 0} where
  -- Each critical section is a step. Any of the sends may come next.
  pub data Runs : Hub Event → Type 0 where
    empty : Runs (record { entries = []; sends = [] })
    subscribed :
        {h : Hub Event} (capacity : ℕ)
        → Runs h
        → Runs (record h { entries = subscribe capacity h.entries })
    published :
        {h : Hub Event} (es : List Event)
        → Runs h
        → Runs (record h { sends = h.sends ++ snapshot es h.entries })
    sending :
        {h : Hub Event} (key : ℕ) (e : Event) (es : List Event) (before after : List (Send Event))
        → Runs h
        → h.sends ≡ before ++ record { key = key; events = e ∷ es } ∷ after
        → Runs (record {
          entries = send key e h.entries;
          sends = before ++ record { key = key; events = es } ∷ after;
        })
    closing :
        {h : Hub Event} (key : ℕ) → Runs h → Runs (record h { entries = cancel key h.entries })
    removing :
        {h : Hub Event} (key : ℕ) → Runs h → Runs (record h { entries = remove key h.entries })

  pub record IsConsistent (x : Entry Event) : Type 0 where
    pub held : x.listed ≡ (not x.sub.closed || x.removing)
    pub after_close : x.removing ≡ true → x.sub.closed ≡ true

  publish_one-closed : (e : Event) (s : Subscription Event) → (publish_one e s).closed ≡ s.closed
  unfolding publish_one
  publish_one-closed e s = ground arith

  sent-IsConsistent :
      (key : ℕ) (e : Event) (x : Entry Event) → IsConsistent x → IsConsistent (sent key e x)
  sent-IsConsistent key e x h = record {
    held = rw (same (x.key == key)) h.held;
    after_close = λ r. same (x.key == key) ∙ h.after_close r;
  }
    where
      same : (b : Bool) → (if b then publish_one e x.sub else x.sub).closed ≡ x.sub.closed
      same true = publish_one-closed e x.sub
      same false = refl

  closed-IsConsistent : (key : ℕ) (x : Entry Event) → IsConsistent x → IsConsistent (closed key x)
  unfolding close
  closed-IsConsistent key x h = by (x.key == key) x.sub.closed refl
    where
      by :
          (b c : Bool)
          → x.sub.closed ≡ c
          → IsConsistent (if b && not c then record x { sub = close x.sub; removing = true } else x)
      by true false q = record { held = rw (h.held, q) refl; after_close = λ r. refl }
      by true true q = h
      by false c q = h

  removed-IsConsistent : (key : ℕ) (x : Entry Event) → IsConsistent x → IsConsistent (removed key x)
  removed-IsConsistent key x h = by (x.key == key) x.removing refl
    where
      by :
          (b c : Bool)
          → x.removing ≡ c
          → IsConsistent (if b && c then record x { listed = false; removing = false } else x)
      by true true q = record { held = rw (h.after_close q) refl; after_close = λ r. absurd cc }
      by true false q = h
      by false c q = h

  All-mapped :
      (f : Entry Event → Entry Event)
      → ((x : Entry Event) → IsConsistent x → IsConsistent (f x))
      → (xs : Fanout Event) → All IsConsistent xs
      → All IsConsistent (map f xs)
  All-mapped f step [] h = tt
  All-mapped f step (x ∷ xs) h = (step x h.0, All-mapped f step xs h.1)

  Runs-All : (h : Hub Event) → Runs h → All IsConsistent h.entries
  unfolding subscribe new_subscription send cancel remove
  Runs-All h empty = tt
  Runs-All h (subscribed {h = g} capacity r) =
      All-append IsConsistent g.entries _ (Runs-All g r)
        (record { held = refl; after_close = λ q. absurd cc }, tt)
  Runs-All h (published {h = g} es r) = Runs-All g r
  Runs-All h (sending {h = g} key e es before after r q) =
      All-mapped (sent key e) (sent-IsConsistent key e) g.entries (Runs-All g r)
  Runs-All h (closing {h = g} key r) =
      All-mapped (closed key) (closed-IsConsistent key) g.entries (Runs-All g r)
  Runs-All h (removing {h = g} key r) =
      All-mapped (removed key) (removed-IsConsistent key) g.entries (Runs-All g r)

  counted :
      (f : Fanout Event)
      → All IsConsistent f
      → subscriber_count f ≡ count (λ x. not x.sub.closed) f + count (λ x. x.removing) f
  unfolding subscriber_count
  counted [] h = refl
  counted (x ∷ f) h = ground (arith, h.0.held, h.0.after_close, counted f h.1)

  -- However the critical sections of Subscribe, Publish and Cancel follow one another, the fan-out
  -- holds a subscription exactly while it is open or the Cancel that closed it has not removed it;
  -- and SubscriberCount is the number of open subscriptions and of Cancel calls in that place.
  pub Runs-IsConsistent :
      (h : Hub Event)
      → Runs h
      → All IsConsistent h.entries
        × (subscriber_count h.entries
            ≡ count (λ x. not x.sub.closed) h.entries + count (λ x. x.removing) h.entries)
  Runs-IsConsistent h r = (Runs-All h r, counted h.entries (Runs-All h r))
