-- ===== src/Foreground/Feed.antt =====
-- The mailbox of the samples (`Feed` of src/foreground.rs): what was sent since the last drain. The
-- mutex makes each operation one step.
pub mod Bounded
use nestwatch.Common.{Option, none, some, []}
use nestwatch.Foreground.{Sample, accrue_capped, truncate_keys, max_apps, max_pages}

abbrev pub Feed : Type 0
Feed = Option Sample

abbrev pub pending_sample : Feed → Sample
pending_sample none = record { apps = []; pages = []; web = [] }
pending_sample (some s) = s

unfoldable pub submit : Sample → Feed → Feed
submit sample feed =
    let pending = pending_sample feed in
    some (record {
      apps = accrue_capped pending.apps (truncate_keys sample.apps) max_apps;
      pages = accrue_capped pending.pages (truncate_keys sample.pages) max_pages;
      web = accrue_capped pending.web (truncate_keys sample.web) max_pages;
    })

unfoldable pub drain : Feed → Option Sample × Feed
drain feed = (feed, none)
