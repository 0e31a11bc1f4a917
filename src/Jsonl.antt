-- ===== src/Jsonl.antt =====
-- The logs of events, one JSON object a line (src/jsonl.rs), as the time codes and the requests use
-- them. The events of a file stand newest first, as `recent` returns them. What the file system
-- answers to a write is an input; the size and the text of the lines are not modelled.
pub mod Latest
use nestwatch.Common.{Bool, true, false, ◌&&◌, Option, none, some, List, [], ◌∷◌, if◌then◌else◌}
use nestwatch.Common.Keyed.{Eq, mem?}

pub record JsonlLog (Event : Type 0) : Type 0 where
  pub enabled : Bool
  pub events : List Event
  pub rotated : List Event

abbrev pub disabled : {Event : Type 0} → JsonlLog Event
disabled = record { enabled = false; events = []; rotated = [] }

abbrev pub empty_log : {Event : Type 0} → JsonlLog Event
empty_log = record { enabled = true; events = []; rotated = [] }

-- Whether the file is over its size, whether it could be renamed, whether that deleted an older
-- generation, and whether the marker of the rotation and the event itself could be written.
pub record Io : Type 0 where
  pub over_size : Bool
  pub renamed : Bool
  pub discarded : Bool
  pub marker_written : Bool
  pub written : Bool

unfoldable pub rotate_if_over_size : {Event : Type 0} → Event → Io → JsonlLog Event → JsonlLog Event
rotate_if_over_size marker io l =
    if io.over_size && io.renamed
    then record l {
      events = if io.discarded && io.marker_written then marker ∷ [] else [];
      rotated = l.events;
    }
    else l

-- `record`: an event that could not be written is lost, with a warning.
unfoldable pub record_event :
    {Event : Type 0} → Event → Io → Event → JsonlLog Event → JsonlLog Event
unfolding rotate_if_over_size
record_event marker io event l =
    if l.enabled
    then (let r = rotate_if_over_size marker io l in
        if io.written then record r { events = event ∷ r.events } else r)
    else l

-- `recent`, which reads the current file alone, with no limit.
unfoldable pub recent : {Event : Type 0} → JsonlLog Event → List Event
recent l = if l.enabled then l.events else []

-- The loop that `active` and `pending` share: of the events with a key, the newest of each key, if
-- it opens the item. `seen` are the keys met so far.
module _ {Key Event : Type 0} ⦃e : Eq Key⦄ (key_of : Event → Option Key)
    (opens : Event → Bool) where
  unfoldable pub open_events : List Key → List Event → List Event
  open_events seen [] = []
  open_events seen (x ∷ xs) = elim (key_of x) [
    | none ↦ open_events seen xs
    | some k ↦
        if mem? k seen
        then open_events seen xs
        else (let rest = open_events (k ∷ seen) xs in if opens x then x ∷ rest else rest)
  ]
