-- ===== src/Query/Executor/Pages/Order.antt =====
-- internal/query/executor.go: the order of the events of a page.
use Prim.Native.Nat.{Ordering}
use logpond.Base.{ℕ, zero, suc, ◌≡◌, Bool, true, false, List, [], ◌∷◌, All, take, if◌then◌else◌}
use logpond.Base.Text.{Bytes, codes, equal}
use logpond.Base.Compare.{
  IsLawful, constant-IsLawful, flip-IsLawful, pulled-IsLawful, first-IsLawful,
  compare_ints-IsLawful, compare_bytes-IsLawful, asym, trans',
}
use logpond.Catalog.Order.{IsOrdered, order_by-IsOrdered}
use logpond.Query.Executor.Request.{SortKey, is_desc}
use logpond.Query.Executor.Engine.{ResultEvent}
use logpond.Query.Executor.Pages.{
  compare_field, compare_events, directed, sorts_before, sort_events, string_of,
}

if-IsLawful {ℓ} :
    {A : Type ℓ} (b : Bool) {c d : A → A → Ordering}
    → IsLawful c
    → IsLawful d
    → IsLawful (λ x y. if b then c x y else d x y)
if-IsLawful true h k = h
if-IsLawful false h k = k

directed-IsLawful {ℓ} :
    {A : Type ℓ} (b : Bool) {c : A → A → Ordering}
    → IsLawful c
    → IsLawful (λ x y. directed b (c x y))
directed-IsLawful true h = flip-IsLawful h
directed-IsLawful false h = h

compare_field-IsLawful : (field : Bytes) → IsLawful (compare_field field)
unfolding compare_field
compare_field-IsLawful field =
    if-IsLawful (equal field (codes "timestamp"))
      (pulled-IsLawful (λ (e : ResultEvent). e.timestamp) compare_ints-IsLawful)
      (if-IsLawful (equal field (codes "service"))
        (pulled-IsLawful (λ (e : ResultEvent). string_of e.service) compare_bytes-IsLawful)
        (if-IsLawful (equal field (codes "level"))
          (pulled-IsLawful (λ (e : ResultEvent). string_of e.level) compare_bytes-IsLawful)
          (if-IsLawful (equal field (codes "host"))
            (pulled-IsLawful (λ (e : ResultEvent). string_of e.host) compare_bytes-IsLawful)
            (if-IsLawful (equal field (codes "source"))
              (pulled-IsLawful (λ (e : ResultEvent). e.source) compare_bytes-IsLawful)
              constant-IsLawful))))

pub compare_events-IsLawful : (ks : List SortKey) → IsLawful (compare_events ks)
unfolding compare_events
compare_events-IsLawful [] = constant-IsLawful
compare_events-IsLawful (k ∷ ks) =
    first-IsLawful (directed-IsLawful (is_desc k) (compare_field-IsLawful k.field))
      (compare_events-IsLawful ks)

pub sort_events-IsOrdered :
    (ks : List SortKey) (evs : List ResultEvent) → IsOrdered (sorts_before ks) (sort_events ks evs)
unfolding sort_events
sort_events-IsOrdered ks evs =
    let laws = compare_events-IsLawful ks in
    order_by-IsOrdered (sorts_before ks) (asym laws) (trans' laws) evs

pub take-All {ℓ κ} :
    {A : Type ℓ} (P : A → Type κ) (n : ℕ) (xs : List A) → All P xs → All P (take n xs)
take-All P zero xs h = tt
take-All P (suc n) [] h = tt
take-All P (suc n) (x ∷ xs) h = (h.0, take-All P n xs h.1)

pub take-IsOrdered {ℓ} :
    {A : Type ℓ} (before : A → A → Bool) (n : ℕ) (xs : List A)
    → IsOrdered before xs
    → IsOrdered before (take n xs)
take-IsOrdered before zero xs h = tt
take-IsOrdered before (suc n) [] h = tt
take-IsOrdered before (suc n) (x ∷ xs) h =
    (take-All (λ y. before y x ≡ false) n xs h.0, take-IsOrdered before n xs h.1)
