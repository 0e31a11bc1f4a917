-- ===== src/Refusals/Counting.antt =====
-- No refusal is lost on the way from the cells to the day's tally (src/refusals.rs).
use nestwatch.Common.{
  ℕ, Bool, true, false, ltb, sat32, ◌≡◌, ◌||◌, List, [], ◌∷◌, arith, refl, ◌∙◌, ap,
}
use nestwatch.Refusals.{Refused, total, default, any_refused, merge, Cell, bump, drain}

positive : (a b : ℕ) → ltb 0 (sat32 a b) ≡ ltb 0 a || ltb 0 b
positive a b = ground arith

exchange : (p q x y : Bool) → (p || q) || (x || y) ≡ (p || x) || (q || y)
exchange true q x y = refl
exchange false true true y = refl
exchange false true false y = refl
exchange false false x y = refl

-- Ten tests by field, and by record.
regroup :
    (a b c d e a' b' c' d' e' : Bool)
    → ((((a || a') || (b || b')) || (c || c')) || (d || d')) || (e || e')
      ≡ ((((a || b) || c) || d) || e) || ((((a' || b') || c') || d') || e')
regroup a b c d e a' b' c' d' e' =
    ap (λ x. ((x || (c || c')) || (d || d')) || (e || e')) (exchange a a' b b')
    ∙ ap (λ x. (x || (d || d')) || (e || e')) (exchange (a || b) (a' || b') c c')
    ∙ ap (λ x. x || (e || e')) (exchange ((a || b) || c) ((a' || b') || c') d d')
    ∙ exchange (((a || b) || c) || d) (((a' || b') || c') || d') e e'

any_refused-fields :
    (r : Refused)
    → any_refused r ≡ (
        (((ltb 0 r.clock_changes || ltb 0 r.day_resets) || ltb 0 r.shutdown_cancels)
          || ltb 0 r.time_codes_refused)
        || ltb 0 r.wrong_passwords)
unfolding any_refused total
any_refused-fields r =
    let a = r.clock_changes in
    let b = r.day_resets in
    let c = r.shutdown_cancels in
    let d = r.time_codes_refused in
    positive (sat32 (sat32 (sat32 a b) c) d) r.wrong_passwords
    ∙ ap (λ x. x || ltb 0 r.wrong_passwords)
        (positive (sat32 (sat32 a b) c) d
          ∙ ap (λ x. x || ltb 0 d) (positive (sat32 a b) c ∙ ap (λ x. x || ltb 0 c) (positive a b)))

-- A merged count is zero only if both were: saturation never hides that something was refused.
pub any_refused-merge : (a b : Refused) → any_refused (merge a b) ≡ any_refused a || any_refused b
unfolding merge
any_refused-merge a b =
    rw
      (
        any_refused-fields (merge a b),
        any_refused-fields a,
        any_refused-fields b,
        positive,
        positive,
        positive,
        positive,
        positive,
      )
      (regroup (ltb 0 a.clock_changes) (ltb 0 a.day_resets) (ltb 0 a.shutdown_cancels)
        (ltb 0 a.time_codes_refused) (ltb 0 a.wrong_passwords) (ltb 0 b.clock_changes)
        (ltb 0 b.day_resets) (ltb 0 b.shutdown_cancels) (ltb 0 b.time_codes_refused)
        (ltb 0 b.wrong_passwords))

-- An event at a cell, or a tick that drains the cells into the tally.
pub data Event : Type 0 where
  refuse : Cell → Event
  tick : Event

-- The cells and the tally after some events.
unfoldable pub count_events : Refused → Refused → List Event → Refused × Refused
count_events cells tally [] = (cells, tally)
count_events cells tally (refuse c ∷ es) = count_events (bump c cells) tally es
count_events cells tally (tick ∷ es) =
    let (left, taken) = drain cells in count_events left (merge tally taken) es

-- What the same events come to with one set of counters and no draining.
unfoldable pub straight : Refused → List Event → Refused
straight r [] = r
straight r (refuse c ∷ es) = straight (bump c r) es
straight r (tick ∷ es) = straight r es

merge-default : (t cells : Refused) → merge (merge t cells) default ≡ merge t cells
unfolding merge
merge-default t cells = ground arith

merge-bump : (t cells : Refused) (c : Cell) → merge t (bump c cells) ≡ bump c (merge t cells)
unfolding merge bump
merge-bump t cells c = ground arith

-- However the events and the draining ticks interleave, the tally and the cells together hold what
-- one set of saturating counters would: no refusal is lost and none is counted twice.
pub count_events-straight :
    (cells tally : Refused) (es : List Event)
    → let (left, kept) = count_events cells tally es in
      merge kept left ≡ straight (merge tally cells) es
unfolding count_events straight drain
count_events-straight cells tally [] = refl
count_events-straight cells tally (refuse c ∷ es) =
    count_events-straight (bump c cells) tally es
    ∙ ap (λ r. straight r es) (merge-bump tally cells c)
count_events-straight cells tally (tick ∷ es) =
    count_events-straight default (merge tally cells) es
    ∙ ap (λ r. straight r es) (merge-default tally cells)
