-- ===== src/Ingest/Fanout/Trace.antt =====
-- What a subscriber of internal/ingest/fanout.go sees of the published events.
use mathlib.Core.List.{append_assoc}
use logpond.Base.{
  ℕ, ◌+◌, ◌%◌, ◌≤◌, ◌≡◌, refl, sym, subst, ap, ◌∙◌, Bool, true, false, List, [], ◌∷◌, ◌++◌, arith,
  length, length-append, Bool-cases, inl, inr, ltb, if◌then◌else◌,
}
use logpond.Base.Int64.{modulus}
use logpond.Ingest.Fanout.{Subscription, new_subscription, publish_one, close}

module _ {Event : Type 0} where
  -- `IsWithin xs ys`: xs is ys with some elements left out.
  pub data IsWithin : List Event → List Event → Type 0 where
    stop : IsWithin [] []
    keep : {x : Event} {xs ys : List Event} → IsWithin xs ys → IsWithin (x ∷ xs) (x ∷ ys)
    skip : {y : Event} {xs ys : List Event} → IsWithin xs ys → IsWithin xs (y ∷ ys)

  keep_last :
      (xs ys : List Event) (e : Event) → IsWithin xs ys → IsWithin (xs ++ e ∷ []) (ys ++ e ∷ [])
  keep_last xs ys e stop = keep stop
  keep_last xs ys e (keep {xs = us} {ys = vs} w) = keep (keep_last us vs e w)
  keep_last xs ys e (skip {ys = vs} w) = skip (keep_last xs vs e w)

  skip_last : (xs ys : List Event) (e : Event) → IsWithin xs ys → IsWithin xs (ys ++ e ∷ [])
  skip_last xs ys e stop = skip stop
  skip_last xs ys e (keep {xs = us} {ys = vs} w) = keep (skip_last us vs e w)
  skip_last xs ys e (skip {ys = vs} w) = skip (skip_last xs vs e w)

  -- The events offered to a subscription before it was closed, and those its owner has read.
  pub data Trace : List Event → List Event → Subscription Event → Type 0 where
    fresh : (capacity : ℕ) → Trace [] [] (new_subscription capacity)
    offered :
        {os rs : List Event} {s : Subscription Event} (e : Event)
        → Trace os rs s
        → s.closed ≡ false
        → Trace (os ++ e ∷ []) rs (publish_one e s)
    late :
        {os rs : List Event} {s : Subscription Event} (e : Event)
        → Trace os rs s
        → s.closed ≡ true
        → Trace os rs (publish_one e s)
    read :
        {os rs : List Event} {s : Subscription Event} (e : Event) (later : List Event)
        → Trace os rs s
        → s.queue ≡ e ∷ later
        → Trace os (rs ++ e ∷ []) (record s { queue = later })
    closing : {os rs : List Event} {s : Subscription Event} → Trace os rs s → Trace os rs (close s)

  -- `lost` is how many events were dropped, as a number without a bound.
  pub record Accounts (os rs : List Event) (s : Subscription Event) : Type 0 where
    pub lost : ℕ
    pub in_order : IsWithin (rs ++ s.queue) os
    pub all_counted : length rs + length s.queue + lost ≡ length os
    pub wrapped : s.dropped ≡ lost % modulus
    pub within : length s.queue ≤ s.capacity

  offered-Accounts :
      (os rs : List Event) (s : Subscription Event) (e : Event)
      → s.closed ≡ false
      → Accounts os rs s
      → Accounts (os ++ e ∷ []) rs (publish_one e s)
  unfolding publish_one
  offered-Accounts os rs s e is_open h = elim (Bool-cases (ltb (length s.queue) s.capacity)) [
    | inl room ↦
        rw (is_open, room)
          (record {
            lost = h.lost;
            in_order =
                subst (λ l. IsWithin l (os ++ e ∷ [])) (append_assoc rs s.queue (e ∷ []))
                  (keep_last _ os e h.in_order);
            all_counted =
                omega
                  (arith, length-append s.queue (e ∷ []), length-append os (e ∷ []), h.all_counted);
            wrapped = h.wrapped;
            within = ground (arith, length-append s.queue (e ∷ []), room);
          })
    | inr full ↦
        rw (is_open, full)
          (record {
            lost = h.lost + 1;
            in_order = skip_last _ os e h.in_order;
            all_counted = omega (arith, length-append os (e ∷ []), h.all_counted);
            wrapped = omega (arith, h.wrapped);
            within = h.within;
          })
  ]

  late-Accounts :
      (os rs : List Event) (s : Subscription Event) (e : Event)
      → s.closed ≡ true
      → Accounts os rs s
      → Accounts os rs (publish_one e s)
  unfolding publish_one
  late-Accounts os rs s e is_closed h = if_true s.closed s _ is_closed h
    where
      if_true :
          (b : Bool) (x y : Subscription Event)
          → b ≡ true
          → Accounts os rs x
          → Accounts os rs (if b then x else y)
      if_true true x y p k = k
      if_true false x y p k = absurd cc

  -- Whatever the order of publishing, reading and closing: what the owner has read and what waits in
  -- the queue are the offered events with some left out, in their order; those left out are as many as
  -- `Dropped` counts, modulo 2 ^ 64; and the queue keeps within its capacity.
  pub Trace-Accounts :
      (os rs : List Event) (s : Subscription Event) → Trace os rs s → Accounts os rs s
  unfolding new_subscription close
  Trace-Accounts os rs s (fresh capacity) = record {
    lost = 0;
    in_order = stop;
    all_counted = omega arith;
    wrapped = refl;
    within = omega arith;
  }
  Trace-Accounts os rs s (offered {os = before} {s = r} e t is_open) =
      offered-Accounts before rs r e is_open (Trace-Accounts before rs r t)
  Trace-Accounts os rs s (late {s = r} e t is_closed) =
      late-Accounts os rs r e is_closed (Trace-Accounts os rs r t)
  Trace-Accounts os rs s (read {rs = before} {s = r} e later t q) =
      read-Accounts (Trace-Accounts os before r t)
    where
      read-Accounts :
          Accounts os before r → Accounts os (before ++ e ∷ []) (record r { queue = later })
      read-Accounts h = record {
        lost = h.lost;
        in_order =
            subst (λ l. IsWithin l os)
              (ap (◌++◌ before) q ∙ sym (append_assoc before (e ∷ []) later)) h.in_order;
        all_counted = omega (arith, length-append before (e ∷ []), h.all_counted, ap length q);
        wrapped = h.wrapped;
        within = omega (arith, h.within, ap length q);
      }
  Trace-Accounts os rs s (closing {s = r} t) = closed-Accounts (Trace-Accounts os rs r t)
    where
      closed-Accounts : Accounts os rs r → Accounts os rs (close r)
      closed-Accounts h = record {
        lost = h.lost;
        in_order = h.in_order;
        all_counted = h.all_counted;
        wrapped = h.wrapped;
        within = h.within;
      }
