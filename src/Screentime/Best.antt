-- ===== src/Screentime/Best.antt =====
-- Of the rows of a date, the one with the most detail is kept, whatever their order
-- (src/screentime.rs, `build_report`).
use mathlib.Core.Path.{subst}
use nestwatch.Common.{
  ℕ, zero, suc, ◌<◌, ◌≡◌, refl, sym, ◌∙◌, Bool, true, false, Option, none, some, List, [], ◌∷◌,
  get_elem?, leb, ltb, ◌==◌, ==_iff, if◌then◌else◌, arith, Bool-cases, Option-cases, ◌⊎◌, inl, inr,
  All,
}
use nestwatch.Common.Keyed.{nat_keys, lookup, IsMap, Fresh}
use nestwatch.Screentime.{ParsedRow, detail, at_least, put, keep_best, rows_by_date}

pub lookup-put :
    (k date : ℕ) (row : ParsedRow) (m : List (ℕ × ParsedRow))
    → lookup k (put date row m) ≡ (if date == k then some row else lookup k m)
unfolding lookup put
lookup-put k date row [] = refl
lookup-put k date row ((d, r) ∷ m) = ground (arith, lookup-put k date row m)

-- The dates of the map ascend.
abbrev pub Ascending : List (ℕ × ParsedRow) → Type 0
Ascending [] = Unit
Ascending ((d, r) ∷ m) = All (λ (x : ℕ × ParsedRow). d < x.0) m × Ascending m

later :
    (a b : ℕ) (m : List (ℕ × ParsedRow))
    → a < b
    → All (λ (x : ℕ × ParsedRow). b < x.0) m
    → All (λ (x : ℕ × ParsedRow). a < x.0) m
later a b [] le h = tt
later a b (x ∷ m) le h = (omega arith, later a b m le h.1)

All-put :
    (d date : ℕ) (row : ParsedRow) (m : List (ℕ × ParsedRow))
    → d < date
    → All (λ (x : ℕ × ParsedRow). d < x.0) m
    → All (λ (x : ℕ × ParsedRow). d < x.0) (put date row m)
unfolding put
All-put d date row [] lt h = (lt, tt)
All-put d date row ((e, r) ∷ m) lt h = ground (arith, All-put d date row m lt h.1)

put-Ascending :
    (date : ℕ) (row : ParsedRow) (m : List (ℕ × ParsedRow))
    → Ascending m
    → Ascending (put date row m)
unfolding put
put-Ascending date row [] h = (tt, tt)
put-Ascending date row ((d, r) ∷ m) h = elim (Bool-cases (date == d)) [
  | inl same ↦
      rw (put, same)
        (
          subst (λ z. All (λ (x : ℕ × ParsedRow). z < x.0) m) (sym ((==_iff date d).0 same)) h.0,
          h.1,
        )
  | inr other ↦ elim (Bool-cases (ltb date d)) [
    | inl first ↦ rw (put, other, first) ((ground arith, later date d m (ground arith) h.0), h)
    | inr last ↦
        rw (put, other, last)
          (All-put d date row m (ground arith) h.0, put-Ascending date row m h.1)
  ]
]

keep_best-Ascending :
    (date : ℕ) (row : ParsedRow) (m : List (ℕ × ParsedRow))
    → Ascending m
    → Ascending (keep_best date row m)
unfolding keep_best
keep_best-Ascending date row m h = elim (Option-cases (lookup date m)) [
  | inl new ↦ rw (keep_best, new) (put-Ascending date row m h)
  | inr (r, old) ↦ elim (Bool-cases (at_least (detail r) (detail row))) [
    | inl better ↦ rw (keep_best, old, better) h
    | inr worse ↦ rw (keep_best, old, worse) (put-Ascending date row m h)
  ]
]

pub rows_by_date-Ascending :
    (today : ℕ) (rows : List (Option (ℕ × ParsedRow))) (m : List (ℕ × ParsedRow))
    → Ascending m
    → Ascending (rows_by_date today rows m)
unfolding rows_by_date
rows_by_date-Ascending today [] m h = h
rows_by_date-Ascending today (none ∷ rows) m h = rows_by_date-Ascending today rows m h
rows_by_date-Ascending today (some (date, row) ∷ rows) m h = elim (Bool-cases (leb today date)) [
  | inl late ↦ rw (rows_by_date, late) (rows_by_date-Ascending today rows m h)
  | inr past ↦
      rw (rows_by_date, past)
        (rows_by_date-Ascending today rows (keep_best date row m)
          (keep_best-Ascending date row m h))
]

pub Ascending-IsMap : (m : List (ℕ × ParsedRow)) → Ascending m → IsMap m
Ascending-IsMap [] h = tt
Ascending-IsMap ((d, r) ∷ m) h = (All-Fresh d m h.0, Ascending-IsMap m h.1)
  where
    All-Fresh :
        (e : ℕ) (n : List (ℕ × ParsedRow)) → All (λ (x : ℕ × ParsedRow). e < x.0) n → Fresh e n
    All-Fresh e [] k = tt
    All-Fresh e ((a, b) ∷ n) k = (ground arith, All-Fresh e n k.1)

at_least_refl : (d : Bool × Bool × ℕ) → at_least d d ≡ true
unfolding at_least
at_least_refl (a, b, n) = ground arith

at_least_trans :
    (d e f : Bool × Bool × ℕ) → at_least d e ≡ true → at_least e f ≡ true → at_least d f ≡ true
unfolding at_least
at_least_trans (a, b, n) (c, d, m) (e, f, l) h k = ground arith

at_least_total : (d e : Bool × Bool × ℕ) → at_least d e ≡ false → at_least e d ≡ true
unfolding at_least
at_least_total (a, b, n) (c, d, m) h = ground arith

-- A row at least as detailed stands at the date.
abbrev pub Kept : ℕ → ParsedRow → List (ℕ × ParsedRow) → Type 0
Kept date row m =
    (best : ParsedRow) × (lookup date m ≡ some best) × (at_least (detail best) (detail row) ≡ true)

keep_best-Kept :
    (date : ℕ) (row : ParsedRow) (m : List (ℕ × ParsedRow)) → Kept date row (keep_best date row m)
unfolding keep_best
keep_best-Kept date row m = elim (Option-cases (lookup date m)) [
  | inl new ↦
      rw (keep_best, new)
        (row, ground (arith, lookup-put date date row m), at_least_refl (detail row))
  | inr (r, old) ↦ elim (Bool-cases (at_least (detail r) (detail row))) [
    | inl better ↦ rw (keep_best, old, better) (r, old, better)
    | inr worse ↦
        rw (keep_best, old, worse)
          (row, ground (arith, lookup-put date date row m), at_least_refl (detail row))
  ]
]

lookup-keep_best :
    (k date : ℕ) (row : ParsedRow) (m : List (ℕ × ParsedRow))
    → (date == k) ≡ false
    → lookup k (keep_best date row m) ≡ lookup k m
unfolding keep_best
lookup-keep_best k date row m other = elim (Option-cases (lookup date m)) [
  | inl new ↦ rw (keep_best, new) (ground (arith, lookup-put k date row m))
  | inr (r, old) ↦ rw (keep_best, old) (ground (arith, lookup-put k date row m))
]

keep_best-raises :
    (date : ℕ) (q row : ParsedRow) (m : List (ℕ × ParsedRow))
    → Kept date q m
    → Kept date q (keep_best date row m)
unfolding keep_best
keep_best-raises date q row m (best, here, good) =
    elim (Bool-cases (at_least (detail best) (detail row))) [
      | inl better ↦ rw (keep_best, here, better) (best, here, good)
      | inr worse ↦
          rw (keep_best, here, worse)
            (
              row,
              ground (arith, lookup-put date date row m),
              at_least_trans (detail row) (detail best) (detail q)
                  (at_least_total (detail best) (detail row) worse) good,
            )
    ]

Kept-keep_best :
    (k : ℕ) (q : ParsedRow) (date : ℕ) (row : ParsedRow) (m : List (ℕ × ParsedRow))
    → Kept k q m
    → Kept k q (keep_best date row m)
Kept-keep_best k q date row m h = elim (Bool-cases (date == k)) [
  | inl same ↦
      let here : date ≡ k = (==_iff date k).0 same in
      subst (λ z. Kept z q (keep_best date row m)) here
        (keep_best-raises date q row m (subst (λ z. Kept z q m) (sym here) h))
  | inr other ↦ (h.0, lookup-keep_best k date row m other ∙ h.1, h.2)
]

Kept-rows_by_date :
    (today : ℕ) (rows : List (Option (ℕ × ParsedRow))) (m : List (ℕ × ParsedRow)) (k : ℕ)
    (q : ParsedRow)
    → Kept k q m
    → Kept k q (rows_by_date today rows m)
unfolding rows_by_date
Kept-rows_by_date today [] m k q h = h
Kept-rows_by_date today (none ∷ rows) m k q h = Kept-rows_by_date today rows m k q h
Kept-rows_by_date today (some (date, row) ∷ rows) m k q h = elim (Bool-cases (leb today date)) [
  | inl late ↦ rw (rows_by_date, late) (Kept-rows_by_date today rows m k q h)
  | inr past ↦
      rw (rows_by_date, past)
        (Kept-rows_by_date today rows (keep_best date row m) k q (Kept-keep_best k q date row m h))
]

-- Whatever the order of the rows, a row of a past date is in the report, or one of that date with at
-- least as much detail.
pub rows_by_date-Kept :
    (today : ℕ) (rows : List (Option (ℕ × ParsedRow))) (m : List (ℕ × ParsedRow)) (i date : ℕ)
    (row : ParsedRow)
    → get_elem? rows i ≡ some (some (date, row))
    → date < today
    → Kept date row (rows_by_date today rows m)
unfolding rows_by_date
rows_by_date-Kept today [] m i date row at past = absurd cc
rows_by_date-Kept today (none ∷ rows) m zero date row at past = absurd cc
rows_by_date-Kept today (none ∷ rows) m (suc i) date row at past =
    rows_by_date-Kept today rows m i date row at past
rows_by_date-Kept today (some (d, r) ∷ rows) m zero date row at past =
    let same_date : d ≡ date = cc in
    let same_row : r ≡ row = cc in
    let earlier : leb today d ≡ false = ground arith in
    rw (rows_by_date, earlier, same_date, same_row)
      (Kept-rows_by_date today rows (keep_best date row m) date row (keep_best-Kept date row m))
rows_by_date-Kept today (some (d, r) ∷ rows) m (suc i) date row at past =
    rows_by_date-Kept today rows (if leb today d then m else keep_best d r m) i date row at past

-- What a map holds: entries it had, and rows of the list that are past.
ComesFrom : ℕ → List (Option (ℕ × ParsedRow)) → List (ℕ × ParsedRow) → ℕ → ParsedRow → Type 0
ComesFrom today rows m date row =
    (lookup date m ≡ some row)
    ⊎ ((date < today) × ((i : ℕ) × (get_elem? rows i ≡ some (some (date, row)))))

keep_best-lookup :
    (k : ℕ) (q : ParsedRow) (date : ℕ) (row : ParsedRow) (m : List (ℕ × ParsedRow))
    → lookup k (keep_best date row m) ≡ some q
    → (lookup k m ≡ some q) ⊎ ((date ≡ k) × (row ≡ q))
unfolding keep_best
keep_best-lookup k q date row m h = elim (Option-cases (lookup date m)) [
  | inl new ↦ ground (arith, new, lookup-put k date row m)
  | inr (r, old) ↦ ground (arith, old, lookup-put k date row m)
]

rows_by_date-ComesFrom :
    (today : ℕ) (rows : List (Option (ℕ × ParsedRow))) (m : List (ℕ × ParsedRow)) (date : ℕ)
    (row : ParsedRow)
    → lookup date (rows_by_date today rows m) ≡ some row
    → ComesFrom today rows m date row
unfolding rows_by_date ComesFrom
rows_by_date-ComesFrom today [] m date row found = inl found
rows_by_date-ComesFrom today (none ∷ rows) m date row found =
    elim (rows_by_date-ComesFrom today rows m date row found) [
      | inl old ↦ inl old
      | inr (past, (i, at)) ↦ inr (past, (suc i, at))
    ]
rows_by_date-ComesFrom today (some (d, r) ∷ rows) m date row found =
    elim (rows_by_date-ComesFrom today rows (if leb today d then m else keep_best d r m) date row
      found) [
        | inr (past, (i, at)) ↦ inr (past, (suc i, at))
        | inl old ↦ elim (Bool-cases (leb today d)) [
          | inl late ↦ inl (ground (arith, old, late))
          | inr past ↦ elim (keep_best-lookup date row d r m (ground (arith, old, past))) [
            | inl older ↦ inl older
            | inr (same_date, same_row) ↦ inr (ground arith, (0, cc))
          ]
        ]
      ]

-- And each row of the report is one of the list, of a past date.
pub rows_by_date-lookup :
    (today : ℕ) (rows : List (Option (ℕ × ParsedRow))) (date : ℕ) (row : ParsedRow)
    → lookup date (rows_by_date today rows []) ≡ some row
    → (date < today) × ((i : ℕ) × (get_elem? rows i ≡ some (some (date, row))))
unfolding ComesFrom lookup
rows_by_date-lookup today rows date row found =
    elim (rows_by_date-ComesFrom today rows [] date row found) [
      | inl old ↦ absurd cc
      | inr listed ↦ listed
    ]
