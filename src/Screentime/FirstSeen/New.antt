-- ===== src/Screentime/FirstSeen/New.antt =====
-- What is new on a day (`first_seen_in` of src/screentime.rs).
use mathlib.Core.List.{Permᴰ}
use mathlib.Core.List.Permᴰ
use mathlib.Core.Path.{subst}
use nestwatch.Foreground.Heaviest.{Descending, sort-Descending}
use nestwatch.Common.{
  ltb, ◌≤◌, if◌then◌else◌, ℕ, suc, ◌≡◌, refl, sym, ap, ◌∙◌, String, Bool, true, false, not, ◌||◌,
  Option, none, some, List, [], ◌∷◌, length, retain, any, take, ◌==◌, arith, inl, inr, Bool-cases,
  Option-cases, ◌⊎◌, All, some_injective,
}
use nestwatch.Common.Keyed.{◌=?◌, string_keys, mem?}
use nestwatch.Foreground.{sort_heaviest, insert_sorted, before}
use nestwatch.Screentime.{ParsedRow, AppMinutes, is_empty, sort_heaviest_first}
use nestwatch.Screentime.FirstSeen.{
  max_baseline_apps, top_first_seen, FirstSeen, last_focused, added, add_day, baseline_of, unseen,
  found_on, earlier_than, first_seen_in,
}

-- Whether a name was in the foreground on some of the days.
abbrev pub seen_on : String → List (ℕ × ParsedRow) → Bool
seen_on name [] = false
seen_on name ((date, row) ∷ history) = any (λ a. a.0 =? name) row.focused || seen_on name history

mem-added :
    (name other : String) (names : List String)
    → mem? name (added other names) ≡ ((other =? name) || mem? name names)
unfolding mem?
mem-added name other names = elim (Bool-cases (mem? other names)) [
  | inl known ↦ elim (Bool-cases (other =? name)) [
    | inl same ↦
        rw (known, same)
          (ap (λ n. mem? n names) (sym ((string_keys.beq_iff other name).0 same)) ∙ known)
    | inr differs ↦ rw (known, differs) refl
  ]
  | inr fresh ↦ rw fresh refl
]

-- The names of a day put to some, and those of all days; without a bound.
abbrev put_names : List AppMinutes → List String → List String
put_names [] names = names
put_names ((name, minutes) ∷ focused) names = put_names focused (added name names)

abbrev names_of : List (ℕ × ParsedRow) → List String → List String
names_of [] names = names
names_of ((date, row) ∷ history) names = names_of history (put_names row.focused names)

abbrev pub Distinct : List String → Type 0
Distinct [] = Unit
Distinct (name ∷ names) = (mem? name names ≡ false) × Distinct names

Distinct-added :
    (name : String) (names : List String) → Distinct names → Distinct (added name names)
Distinct-added name names h = elim (Bool-cases (mem? name names)) [
  | inl known ↦ rw known h
  | inr fresh ↦ rw fresh (fresh, h)
]

Distinct-put :
    (focused : List AppMinutes) (names : List String)
    → Distinct names
    → Distinct (put_names focused names)
Distinct-put [] names h = h
Distinct-put ((name, minutes) ∷ focused) names h =
    Distinct-put focused (added name names) (Distinct-added name names h)

names_of-Distinct :
    (history : List (ℕ × ParsedRow)) (names : List String)
    → Distinct names
    → Distinct (names_of history names)
names_of-Distinct [] names h = h
names_of-Distinct ((date, row) ∷ history) names h =
    names_of-Distinct history (put_names row.focused names) (Distinct-put row.focused names h)

mem-put :
    (name : String) (focused : List AppMinutes) (names : List String)
    → mem? name (put_names focused names) ≡ (any (λ a. a.0 =? name) focused || mem? name names)
mem-put name [] names = refl
mem-put name ((other, minutes) ∷ focused) names =
    ground (arith, mem-put name focused (added other names), mem-added name other names)

mem-names_of :
    (name : String) (history : List (ℕ × ParsedRow)) (names : List String)
    → mem? name (names_of history names) ≡ (seen_on name history || mem? name names)
mem-names_of name [] names = refl
mem-names_of name ((date, row) ∷ history) names =
    ground (
      arith,
      mem-names_of name history (put_names row.focused names),
      mem-put name row.focused names,
    )

mem-names_of_none :
    (name : String) (history : List (ℕ × ParsedRow))
    → mem? name (names_of history []) ≡ seen_on name history
unfolding mem?
mem-names_of_none name history = ground (arith, mem-names_of name history [])

length-added : (name : String) (names : List String) → length names ≤ length (added name names)
length-added name names = ground arith

length-put :
    (focused : List AppMinutes) (names : List String)
    → length names ≤ length (put_names focused names)
length-put [] names = omega arith
length-put ((name, minutes) ∷ focused) names =
    omega (arith, length-added name names, length-put focused (added name names))

length-names_of :
    (history : List (ℕ × ParsedRow)) (names : List String)
    → length names ≤ length (names_of history names)
length-names_of [] names = omega arith
length-names_of ((date, row) ∷ history) names =
    omega
      (arith, length-put row.focused names, length-names_of history (put_names row.focused names))

-- The names, unless they are too many.
abbrev bounded : List String → Option (List String)
bounded names = if ltb max_baseline_apps (length names) then none else some names

add_day-bounded :
    (focused : List AppMinutes) (names : List String)
    → length names ≤ max_baseline_apps
    → add_day focused names ≡ bounded (put_names focused names)
unfolding add_day
add_day-bounded [] names h = ground arith
add_day-bounded ((name, minutes) ∷ focused) names h =
    elim (Bool-cases (ltb max_baseline_apps (length (added name names)))) [
      | inl over ↦ ground (arith, over, length-put focused (added name names))
      | inr fits ↦ ground (arith, fits, add_day-bounded focused (added name names))
    ]

empty-put :
    (focused : List AppMinutes) (names : List String)
    → is_empty focused ≡ true
    → put_names focused names ≡ names
empty-put [] names h = refl
empty-put (a ∷ focused) names h = absurd cc

baseline_of-bounded :
    (history : List (ℕ × ParsedRow)) (names : List String) (days : ℕ)
    → length names ≤ max_baseline_apps
    → (baseline_of history names days).0 ≡ bounded (names_of history names)
unfolding baseline_of
baseline_of-bounded [] names days h = ground arith
baseline_of-bounded ((date, row) ∷ history) names days h =
    let put = put_names row.focused names in
    elim (Bool-cases (is_empty row.focused)) [
      | inl empty ↦
          rw (baseline_of, empty)
            (baseline_of-bounded history names days h
              ∙ ap (λ n. bounded (names_of history n)) (sym (empty-put row.focused names empty)))
      | inr full ↦ elim (Bool-cases (ltb max_baseline_apps (length put))) [
        | inl over ↦
            let none_yet : add_day row.focused names ≡ none =
              add_day-bounded row.focused names h ∙ rw over refl in
            ground (arith, full, none_yet, over, length-names_of history put)
        | inr fits ↦
            let larger : add_day row.focused names ≡ some put =
              add_day-bounded row.focused names h ∙ rw fits refl in
            rw (baseline_of, full, larger)
              (baseline_of-bounded history put (suc days) (ground arith))
      ]
    ]

-- What is there on the target day and on no earlier day of the history.
abbrev pub new_on : ℕ → List (ℕ × ParsedRow) → List AppMinutes → List AppMinutes
new_on target history focused =
    retain (λ a. not (seen_on a.0 (earlier_than target history))) focused

perm-insert_sorted : (x : AppMinutes) (xs : List AppMinutes) → Permᴰ (insert_sorted x xs) (x ∷ xs)
unfolding insert_sorted
perm-insert_sorted x [] = Permᴰ.refl (x ∷ [])
perm-insert_sorted x (y ∷ xs) = elim (Bool-cases (before x y)) [
  | inl first ↦ rw (insert_sorted, first) (Permᴰ.refl (x ∷ y ∷ xs))
  | inr later ↦
      rw (insert_sorted, later)
        (Permᴰ.trans (Permᴰ.cons refl (perm-insert_sorted x xs)) (Permᴰ.swap refl refl))
]

perm-sort : (xs : List AppMinutes) → Permᴰ (sort_heaviest xs) xs
unfolding sort_heaviest
perm-sort [] = Permᴰ.nil
perm-sort (x ∷ xs) =
    Permᴰ.trans (perm-insert_sorted x (sort_heaviest xs)) (Permᴰ.cons refl (perm-sort xs))

length-perm : {xs ys : List AppMinutes} → Permᴰ xs ys → length xs ≡ length ys
length-perm Permᴰ.nil = refl
length-perm (Permᴰ.cons e p) = ap suc (length-perm p)
length-perm (Permᴰ.swap e e') = refl
length-perm (Permᴰ.trans p q) = length-perm p ∙ length-perm q

unseen-new_on :
    (target : ℕ) (history : List (ℕ × ParsedRow)) (names : List String) (focused : List AppMinutes)
    → ((name : String) → mem? name names ≡ seen_on name (earlier_than target history))
    → unseen names focused ≡ new_on target history focused
unfolding mem?
unseen-new_on target history names [] h = refl
unseen-new_on target history names ((name, minutes) ∷ focused) h =
    let ih = unseen-new_on target history names focused h in ground (arith, ih, h name)

-- The days of a history are in order.
abbrev pub LastFocused : List (ℕ × ParsedRow) → ℕ × ParsedRow → Type 0
LastFocused [] day = ⊥
LastFocused (x ∷ history) day =
    LastFocused history day
    ⊎ ((x ≡ day) × (is_empty x.1.focused ≡ false) × All (λ y. is_empty y.1.focused ≡ true) history)

last_focused-none :
    (history : List (ℕ × ParsedRow))
    → last_focused history ≡ none
    → All (λ y. is_empty y.1.focused ≡ true) history
unfolding last_focused
last_focused-none [] h = tt
last_focused-none ((date, row) ∷ history) h = elim (Option-cases (last_focused history)) [
  | inl no_later ↦ (ground arith, last_focused-none history no_later)
  | inr (day, later) ↦ absurd ground arith
]

last_focused-LastFocused :
    (history : List (ℕ × ParsedRow)) (day : ℕ × ParsedRow)
    → last_focused history ≡ some day
    → LastFocused history day
unfolding last_focused
last_focused-LastFocused [] day h = absurd cc
last_focused-LastFocused ((date, row) ∷ history) day h =
    elim (Option-cases (last_focused history)) [
      | inl no_later ↦ inr (ground arith, ground arith, last_focused-none history no_later)
      | inr (last, later) ↦ inl (last_focused-LastFocused history day (later ∙ (rw later at h)))
    ]

-- What is listed of the names that were found new: the first of them by their minutes.
abbrev pub Lists : FirstSeen → List AppMinutes → Type 0
Lists found new =
    (found.baseline_overflow ≡ false
      → (found.count ≡ length new)
        × ((sorted : List AppMinutes) × (Permᴰ sorted new
              × Descending sorted
              × (found.apps ≡ take top_first_seen sorted))))
    × (found.baseline_overflow ≡ true → (found.apps ≡ []) × (found.count ≡ 0))

found_on-Lists :
    (date : ℕ) (focused new : List AppMinutes) (names : List String) (days : ℕ) (found : FirstSeen)
    → unseen names focused ≡ new
    → found_on date focused (bounded names, days) ≡ some found
    → (found.date ≡ date)
      × (found.baseline_overflow ≡ ltb max_baseline_apps (length names))
      × Lists found new
unfolding sort_heaviest_first
found_on-Lists date focused new names days found right e =
    elim (Bool-cases (ltb max_baseline_apps (length names))) [
      | inl over ↦
          let same = some_injective (rw over at e) in
          let overflow = ap (λ (f : FirstSeen). f.baseline_overflow) (sym same) in
          (
            ap (λ (f : FirstSeen). f.date) (sym same),
            overflow ∙ sym over,
            (
              (λ no_overflow. absurd ground (arith, overflow)),
              (λ h. (
                ap (λ (f : FirstSeen). f.apps) (sym same),
                ap (λ (f : FirstSeen). f.count) (sym same),
              )),
            ),
          )
      | inr fits ↦ elim (Bool-cases (days == 0)) [
        | inl no_days ↦ absurd ground arith
        | inr some_days ↦
            let same = some_injective (rw (fits, some_days) at e) in
            let overflow = ap (λ (f : FirstSeen). f.baseline_overflow) (sym same) in
            let sorted = sort_heaviest (unseen names focused) in
            (
              ap (λ (f : FirstSeen). f.date) (sym same),
              overflow ∙ sym fits,
              (
                (λ h. (
                  ap (λ (f : FirstSeen). f.count) (sym same)
                      ∙ length-perm (perm-sort (unseen names focused))
                      ∙ ap length right,
                  (
                    sorted,
                    (
                      subst (λ xs. Permᴰ sorted xs) right (perm-sort (unseen names focused)),
                      sort-Descending (unseen names focused),
                      ap (λ (f : FirstSeen). f.apps) (sym same),
                    ),
                  ),
                )),
                (λ h. absurd ground (arith, overflow)),
              ),
            )
      ]
    ]

-- The names of the days before a day: each of them once.
abbrev pub NamesBefore : ℕ → List (ℕ × ParsedRow) → List String → Type 0
NamesBefore target history names =
    Distinct names
    × ((name : String) → mem? name names ≡ seen_on name (earlier_than target history))

-- What is reported as seen for the first time is right: the day is the last one of the history on
-- which anything was in the foreground, and the overflow is reported exactly where more than 2000
-- different names were in the foreground on the days before it. Otherwise what is counted is what was
-- there on that day and on no earlier day, and the first eight of it by their minutes, the most
-- first, are listed. With an overflow nothing is listed and the count is zero.
pub first_seen_in-new :
    (history : List (ℕ × ParsedRow)) (found : FirstSeen)
    → first_seen_in history ≡ some found
    → (day : ℕ × ParsedRow) × ((LastFocused history day)
        × (found.date ≡ day.0)
        × ((names : List String) × (NamesBefore day.0 history names
              × (found.baseline_overflow ≡ ltb max_baseline_apps (length names))))
        × Lists found (new_on day.0 history day.1.focused))
unfolding first_seen_in
first_seen_in-new history found h = elim (Option-cases (last_focused history)) [
  | inl never ↦ absurd ground arith
  | inr (day, last) ↦
      let before_it = earlier_than day.0 history in
      let names = names_of before_it [] in
      let read = baseline_of before_it [] 0 in
      let seen : (name : String) → mem? name names ≡ seen_on name before_it =
        λ name. mem-names_of_none name before_it in
      let e : found_on day.0 day.1.focused read ≡ some found = rw (last, first_seen_in) at h in
      let listed =
        found_on-Lists day.0 day.1.focused (new_on day.0 history day.1.focused) names read.1 found
          (unseen-new_on day.0 history names day.1.focused seen)
          (ap (λ o. found_on day.0 day.1.focused (o, read.1))
              (sym (baseline_of-bounded before_it [] 0 (omega arith)))
            ∙ e) in
      (
        day,
        (
          last_focused-LastFocused history day last,
          listed.0,
          (names, ((names_of-Distinct before_it [] tt, seen), listed.1)),
          listed.2,
        ),
      )
]
