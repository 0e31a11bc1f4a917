-- ===== src/Throttle/Submissions.antt =====
-- How many requests of one device are accepted in a window (`SubmitLimiter` of src/timereq.rs).
use nestwatch.Common.{
  ℕ, ◌+◌, ◌≤◌, ◌<◌, ◌≡◌, refl, sym, ap, ◌∙◌, inl, inr, Bool, true, not, ◌&&◌, Option, none, some,
  List, [], ◌∷◌, ◌++◌, length, length-retain, count, count-append, retain, leb, if◌then◌else◌,
  unwrap_or, arith, Bool-cases,
}
use nestwatch.Common.Keyed.{
  Eq, ◌=?◌, filtered, applied, map_values, lookup, insert, lookup-insert, IsMap, insert-IsMap,
  lookup-retain, retain-IsMap, map_values-IsMap, lookup-map_values,
}
use mathlib.Core.Path.{subst}
use nestwatch.Throttle.{
  Net, throttle_key, SubmitLimiter, recent, is_empty, kept_times, count_and_check,
}

abbrev times_in : Option (List ℕ) → List ℕ
times_in o = unwrap_or o []

count-later :
    (window now later : ℕ) (ts : List ℕ)
    → now ≤ later
    → count (recent window later) (retain (recent window now) ts) ≡ count (recent window later) ts
count-later window now later [] le = refl
count-later window now later (t ∷ ts) le = ground (arith, count-later window now later ts le)

count-cons :
    (window later t : ℕ) (ts : List ℕ)
    → count (recent window later) (t ∷ ts)
      ≡ count (recent window later) ts + count (recent window later) (t ∷ [])
count-cons window later t ts = ground arith

times_in-kept :
    (window now : ℕ) (o : Option (List ℕ))
    → times_in (filtered (λ ts. not (is_empty ts)) (applied (retain (recent window now)) o))
      ≡ retain (recent window now) (times_in o)
times_in-kept window now none = refl
times_in-kept window now (some ts) = kept (retain (recent window now) ts)
  where
    kept : (xs : List ℕ) → times_in (filtered (λ ts. not (is_empty ts)) (some xs)) ≡ xs
    kept [] = refl
    kept (x ∷ xs) = refl

module _ {Ip : Type 0} ⦃e : Eq Ip⦄ (net : Net Ip) where
  abbrev times_of : Ip → SubmitLimiter Ip → List ℕ
  times_of key l = times_in (lookup key l.inner)

  kept_times-IsMap : (l : SubmitLimiter Ip) (now : ℕ) → IsMap l.inner → IsMap (kept_times l now)
  kept_times-IsMap l now h =
      retain-IsMap (λ (x : Ip × List ℕ). not (is_empty x.1))
        (map_values (retain (recent l.window now)) l.inner)
        (map_values-IsMap (retain (recent l.window now)) l.inner h)

  times_of-kept :
      (key : Ip) (l : SubmitLimiter Ip) (now : ℕ)
      → IsMap l.inner
      → times_in (lookup key (kept_times l now)) ≡ retain (recent l.window now) (times_of key l)
  times_of-kept key l now h =
      let f = retain (recent l.window now) in
      ap times_in (
        lookup-retain key (λ ts. not (is_empty ts)) (map_values f l.inner)
          (map_values-IsMap f l.inner h)
        ∙ ap (filtered (λ ts. not (is_empty ts))) (lookup-map_values key f l.inner))
      ∙ times_in-kept l.window now (lookup key l.inner)

  times_in-insert :
      (key k : Ip) (ts : List ℕ) (m : List (Ip × List ℕ))
      → times_in (lookup key (insert k ts m)) ≡ (if k =? key then ts else times_in (lookup key m))
  times_in-insert key k ts m =
      ap times_in (lookup-insert k key ts m)
      ∙ elim (Bool-cases (k =? key)) [ inl same ↦ rw same refl | inr other ↦ rw other refl ]

  -- What one request leaves of the times of a device, and when it is accepted.
  record Takes (key ip : Ip) (now : ℕ) (l m : SubmitLimiter Ip) (accepted : Bool) : Type 0 where
    is_map : IsMap m.inner
    same_most : m.max_per_window ≡ l.max_per_window
    same_window : m.window ≡ l.window
    few :
        accepted ≡ true
        → length (retain (recent l.window now) (times_of (throttle_key net ip) l))
          < l.max_per_window
    times : times_of key m ≡ (
        if accepted && (throttle_key net ip =? key)
        then retain (recent l.window now) (times_of key l) ++ now ∷ []
        else retain (recent l.window now) (times_of key l))

  count_and_check-Takes :
      (key ip : Ip) (now : ℕ) (l : SubmitLimiter Ip)
      → IsMap l.inner
      → Takes key ip now l (count_and_check net l ip now).0 (count_and_check net l ip now).1
  unfolding count_and_check
  count_and_check-Takes key ip now l h =
      let k = throttle_key net ip in
      let kept = kept_times l now in
      let own = times_of-kept k l now h in
      let of_key = times_of-kept key l now h in
      let k_map = kept_times-IsMap l now h in
      let ts = times_in (lookup k kept) in
      elim (Bool-cases (leb l.max_per_window (length ts))) [
        | inl full ↦
            rw (count_and_check, full)
              (record {
                is_map = insert-IsMap k ts kept k_map;
                same_most = refl;
                same_window = refl;
                few = λ f. cc;
                times = times_in-insert key k ts kept ∙ elim (Bool-cases (k =? key)) [
                  | inl same ↦ rw same (
                      own
                      ∙ ap (λ x. retain (recent l.window now) (times_of x l))
                          ((e.beq_iff k key).0 same))
                  | inr other ↦ rw other of_key
                ];
              })
        | inr room ↦
            rw (count_and_check, room)
              (record {
                is_map = insert-IsMap k (ts ++ now ∷ []) kept k_map;
                same_most = refl;
                same_window = refl;
                few = λ _. ground (arith, ap length own);
                times = times_in-insert key k (ts ++ now ∷ []) kept ∙ elim (Bool-cases (k =? key)) [
                  | inl same ↦ rw same (
                      ap (λ xs. xs ++ now ∷ [])
                        (own
                          ∙ ap (λ x. retain (recent l.window now) (times_of x l))
                              ((e.beq_iff k key).0 same)))
                  | inr other ↦ rw other of_key
                ];
              })
      ]

  pub record Request : Type 0 where
    pub ip : Ip
    pub now : ℕ

  abbrev pub accepted : Ip → SubmitLimiter Ip → Request → Bool
  accepted key l r = (count_and_check net l r.ip r.now).1 && (throttle_key net r.ip =? key)

  -- Each request of the device that is accepted finds fewer than `most` in the window before it,
  -- counting from those in `past`.
  abbrev pub Paced : Ip → SubmitLimiter Ip → List ℕ → List Request → Type 0
  Paced key l past [] = Unit
  Paced key l past (r ∷ rs) =
      (accepted key l r ≡ true → count (recent l.window r.now) past < l.max_per_window)
      × Paced key (count_and_check net l r.ip r.now).0
          (if accepted key l r then r.now ∷ past else past) rs

  -- The times do not fall, from `start` on.
  abbrev pub Ordered : ℕ → List Request → Type 0
  Ordered start [] = Unit
  Ordered start (r ∷ rs) = (start ≤ r.now) × Ordered r.now rs

  -- The limiter remembers the past of a device as far as it matters from `start` on.
  abbrev pub Remembers : Ip → SubmitLimiter Ip → List ℕ → ℕ → Type 0
  Remembers key l past start =
      (later : ℕ)
      → start ≤ later
      → count (recent l.window later) past ≤ count (recent l.window later) (times_of key l)

  run-Paced :
      (key : Ip) (l : SubmitLimiter Ip) (past : List ℕ) (start : ℕ) (rs : List Request)
      → IsMap l.inner
      → Remembers key l past start
      → Ordered start rs
      → Paced key l past rs
  run-Paced key l past start [] h m o = tt
  run-Paced key l past start (r ∷ rs) h m (le, o) =
      let t = count_and_check-Takes key r.ip r.now l h in
      let w = l.window in
      elim (Bool-cases (accepted key l r)) [
        | inl own ↦
            let flag : (count_and_check net l r.ip r.now).1 ≡ true = ground arith in
            let here : throttle_key net r.ip ≡ key =
              (e.beq_iff (throttle_key net r.ip) key).0 (ground arith) in
            let few = t.few flag in
            let size = length-retain (recent w r.now) (times_of key l) in
            rw own (
              (λ a. omega (
                arith,
                few,
                size,
                m r.now le,
                ap (λ x. length (retain (recent w r.now) (times_of x l))) here,
              )),
              run-Paced key (count_and_check net l r.ip r.now).0 (r.now ∷ past) r.now rs t.is_map
                  (subst
                    (λ v.
                      (later : ℕ)
                      → r.now ≤ later
                      → count (recent v later) (r.now ∷ past)
                        ≤ count (recent v later)
                            (times_of key (count_and_check net l r.ip r.now).0))
                    (sym t.same_window)
                    (λ later g.
                      rw (t.times, own, count-append, count-later w r.now later (times_of key l) g)
                        (omega (arith, m later (omega arith), count-cons w later r.now past))))
                  o,
            )
        | inr not_it ↦ rw not_it (
          (λ a. cc),
          run-Paced key (count_and_check net l r.ip r.now).0 past r.now rs t.is_map
              (subst
                (λ v.
                  (later : ℕ)
                  → r.now ≤ later
                  → count (recent v later) past
                    ≤ count (recent v later) (times_of key (count_and_check net l r.ip r.now).0))
                (sym t.same_window)
                (λ later g.
                  rw (t.times, not_it, count-later w r.now later (times_of key l) g)
                    (m later (omega arith))))
              o,
        )
      ]

-- From an empty limiter and with times that do not fall, a device's request is accepted only if
-- fewer than the most per window of its requests were accepted in the window before it, whatever
-- other devices send in between.
pub run-Paced_from_empty :
    {Ip : Type 0} ⦃e : Eq Ip⦄ (net : Net Ip) (key : Ip) (most window start : ℕ)
    (rs : List (Request net))
    → Ordered net start rs
    → Paced net key (record { inner = []; max_per_window = most; window = window }) [] rs
run-Paced_from_empty net key most window start rs o =
    run-Paced net key (record { inner = []; max_per_window = most; window = window }) [] start rs tt
      (λ later g. omega arith) o
