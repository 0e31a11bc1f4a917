-- ===== src/Jsonl/Latest.antt =====
-- The newest event of a key decides whether its item is open (the loop that `TimeCodes::active` and
-- `TimeRequests::pending` share).
use nestwatch.Common.{
  suc, ◌≤◌, ◌≡◌, refl, ap, inl, inr, Bool, true, false, not, ◌&&◌, Option, none, some, List, [],
  ◌∷◌, find, length, All, ◌⊎◌, if◌then◌else◌, is_some_and, arith, Bool-cases, Option-cases,
}
use mathlib.Core.Path.{subst}
use nestwatch.Common.Keyed.{Eq, ◌=?◌, mem?}
use nestwatch.Jsonl.{JsonlLog, Io, rotate_if_over_size, record_event, recent, open_events}

pub record_event-enabled :
    {Event : Type 0} (marker : Event) (io : Io) (x : Event) (l : JsonlLog Event)
    → (record_event marker io x l).enabled ≡ l.enabled
unfolding record_event rotate_if_over_size
record_event-enabled marker io x l = ground arith

module _ {Key Event : Type 0} ⦃e : Eq Key⦄ (key_of : Event → Option Key)
    (opens : Event → Bool) where
  abbrev pub has : Key → Event → Bool
  has k x = is_some_and (λ j. j =? k) (key_of x)

  -- The newest event of the key opens its item.
  abbrev pub newest : Key → List Event → Option Event
  newest k xs = find (has k) xs

  abbrev pub is_open : Key → List Event → Bool
  is_open k xs = is_some_and opens (newest k xs)

  -- The open event of a key, if the key was not met before.
  abbrev pub open_at : Bool → Option Event → Option Event
  open_at seen none = none
  open_at seen (some x) = if opens x && not seen then some x else none

  open_at-seen : (o : Option Event) → open_at true o ≡ none
  open_at-seen none = refl
  open_at-seen (some x) = ground arith

  pub find-open_events :
      (k : Key) (seen : List Key) (xs : List Event)
      → find (has k) (open_events key_of opens seen xs) ≡ open_at (mem? k seen) (newest k xs)
  unfolding open_events mem?
  find-open_events k seen [] = refl
  find-open_events k seen (x ∷ xs) = elim (Option-cases (key_of x)) [
    | inl keyless ↦ rw (open_events, keyless) (find-open_events k seen xs)
    | inr (j, keyed) ↦
        let rest = find-open_events k (j ∷ seen) xs in
        let skipped = find-open_events k seen xs in
        elim (Bool-cases (j =? k)) [
          | inl same ↦
              let here : j ≡ k = (e.beq_iff j k).0 same in
              rw (open_events, keyed, same)
                (ground (
                  arith,
                  rest,
                  skipped,
                  same,
                  ap (λ z. mem? z seen) here,
                  open_at-seen (newest k xs),
                ))
          | inr other ↦ rw (open_events, keyed, other) (ground (arith, rest, skipped, other))
        ]
  ]

  met_too :
      (s t : List Key) (j : Key)
      → mem? j t ≡ true
      → ((k : Key) → mem? k s ≡ true → mem? k t ≡ true)
      → (k : Key) → mem? k (j ∷ s) ≡ true
      → mem? k t ≡ true
  unfolding mem?
  met_too s t j met more k h = elim (Bool-cases (j =? k)) [
    | inl same ↦ subst (λ z. mem? z t ≡ true) ((e.beq_iff j k).0 same) met
    | inr other ↦ more k (ground (arith, h, other))
  ]

  -- The more keys were met, the fewer items are found open.
  length-open_events :
      (s t : List Key) (xs : List Event)
      → ((j : Key) → mem? j s ≡ true → mem? j t ≡ true)
      → length (open_events key_of opens t xs) ≤ length (open_events key_of opens s xs)
  unfolding open_events mem?
  length-open_events s t [] more = omega arith
  length-open_events s t (x ∷ xs) more = elim (Option-cases (key_of x)) [
    | inl keyless ↦ rw (open_events, keyless) (length-open_events s t xs more)
    | inr (j, keyed) ↦
        let same = length-open_events s t xs more in
        let both = length-open_events (j ∷ s) (j ∷ t) xs (λ k h. ground (arith, more k)) in
        elim (Bool-cases (mem? j t)) [
          | inl met ↦
              let late = length-open_events (j ∷ s) t xs (met_too s t j met more) in
              rw (open_events, keyed, met) (ground (arith, late, same))
          | inr unmet ↦ rw (open_events, keyed, unmet) (ground (arith, both, more j))
        ]
  ]

  -- One event more opens at most one item more, and closes one at most.
  pub length-record :
      (x : Event) (xs : List Event)
      → length (open_events key_of opens [] (x ∷ xs)) ≤ (
          if opens x
          then suc (length (open_events key_of opens [] xs))
          else length (open_events key_of opens [] xs))
  unfolding open_events mem?
  length-record x xs = elim (Option-cases (key_of x)) [
    | inl keyless ↦ rw (open_events, keyless) (ground arith)
    | inr (j, keyed) ↦
        rw (open_events, keyed)
          (ground (arith, length-open_events [] (j ∷ []) xs (λ k h. absurd (ground arith))))
  ]

  pub open_events-All :
      (seen : List Key) (xs : List Event)
      → All (λ x. opens x ≡ true) (open_events key_of opens seen xs)
  unfolding open_events
  open_events-All seen [] = tt
  open_events-All seen (x ∷ xs) = elim (Option-cases (key_of x)) [
    | inl keyless ↦ rw (open_events, keyless) (open_events-All seen xs)
    | inr (j, keyed) ↦
        rw (open_events, keyed)
          (ground (arith, open_events-All seen xs, open_events-All (j ∷ seen) xs))
  ]

  -- Recording an event opens no item but its own, whatever is rotated or fails to be written.
  pub record-open :
      (k : Key) (marker : Event) (io : Io) (x : Event) (l : JsonlLog Event)
      → key_of marker ≡ none
      → is_open k (recent (record_event marker io x l)) ≡ true
      → ((has k x ≡ true) × (opens x ≡ true)) ⊎ (is_open k (recent l) ≡ true)
  unfolding record_event rotate_if_over_size recent
  record-open k marker io x l keyless h = ground arith

  -- An event that closes its item, once written, leaves it closed.
  pub record-closed :
      (k : Key) (marker : Event) (io : Io) (x : Event) (l : JsonlLog Event)
      → io.written ≡ true
      → has k x ≡ true
      → opens x ≡ false
      → is_open k (recent (record_event marker io x l)) ≡ false
  unfolding record_event rotate_if_over_size recent
  record-closed k marker io x l written here closes = ground arith

  pub record-newest :
      (k : Key) (marker : Event) (io : Io) (x : Event) (l : JsonlLog Event)
      → l.enabled ≡ true
      → io.written ≡ true
      → has k x ≡ true
      → newest k (recent (record_event marker io x l)) ≡ some x
  unfolding record_event rotate_if_over_size recent
  record-newest k marker io x l enabled written here = ground arith

  -- Recording an event opens at most one item more.
  pub length-record_event :
      (marker : Event) (io : Io) (x : Event) (l : JsonlLog Event)
      → key_of marker ≡ none
      → length (open_events key_of opens [] (recent (record_event marker io x l))) ≤ (
          if opens x
          then suc (length (open_events key_of opens [] (recent l)))
          else length (open_events key_of opens [] (recent l)))
  unfolding record_event rotate_if_over_size recent open_events
  length-record_event marker io x l keyless =
      ground (arith, length-record x l.events, length-record x (marker ∷ []), length-record x [])
