-- ===== src/Enforce/Stops.antt =====
-- Which processes a tick closes, and whom it tells the child of (the loop over the processes in
-- `decide`, and `announce_once`, of src/rules.rs).
use mathlib.Core.List.{Memᴰ}
use mathlib.Core.Path.{subst}
use nestwatch.Common.{
  ℕ, ◌*◌, ◌≤◌, ◌≡◌, ◌↔◌, ◌⊎◌, inl, inr, refl, String, Bool, true, some, List, [], ◌∷◌, map, arith,
  Option-cases, Bool-cases, find, retain, is_some, unwrap_or, Option, none, sym, ap, ◌∙◌,
  some_injective,
}
use nestwatch.Common.Keyed.{nat_keys, string_keys, mem?, lookup}
use nestwatch.Text.{Text, norm}
use nestwatch.Rules.{GroupTarget}
use nestwatch.Enforce.{
  RunningProcess, RuleAction, kill, app_stopped, Sweep, pool_spent, is_childs, is_member,
  over_limit, group_reason, stop_reason, sweep,
}

-- The child owns the process, under that name in the same snapshot. Without a snapshot nobody does.
abbrev pub IsChilds : Text → Option (List (ℕ × String)) → ℕ → String → Type 0
IsChilds text none pid name = ⊥
IsChilds text (some owned) pid name =
    (own : String) × ((lookup pid owned ≡ some own) × (norm text own ≡ name))

-- The process belongs to the group: by its name, or because the words of the group found it (its
-- program, or a page in its browser) and it is the child's own.
abbrev pub IsMember : Text → Sweep → RunningProcess → GroupTarget → Type 0
IsMember text w p g =
    (mem? (norm text p.name) g.members ≡ true)
    ⊎ (((mem? p.pid g.matched.programs ≡ true)
          ⊎ (mem? (norm text p.name) g.matched.browsers ≡ true))
        × IsChilds text w.child_processes p.pid (norm text p.name))

is_childs-IsChilds :
    (text : Text) (owned : Option (List (ℕ × String))) (pid : ℕ) (name : String)
    → (is_childs text owned pid name ≡ true) ↔ IsChilds text owned pid name
unfolding is_childs
is_childs-IsChilds text none pid name = (λ h. absurd cc, λ h. absurd h)
is_childs-IsChilds text (some owned) pid name = elim (Option-cases (lookup pid owned)) [
  | inl unknown ↦ ((λ h. absurd ground arith), (λ h. absurd ground (arith, h.1.0)))
  | inr (own, known) ↦ (
    (λ h. (own, (known, (string_keys.beq_iff (norm text own) name).0 (ground arith)))),
    (λ h.
        let same : own ≡ h.0 = some_injective (sym known ∙ h.1.0) in
        ground (
          arith,
          (string_keys.beq_iff (norm text own) name).1 (ap (λ o. norm text o) same ∙ h.1.1),
        )),
  )
]

is_member-IsMember :
    (text : Text) (w : Sweep) (p : RunningProcess) (g : GroupTarget)
    → (is_member text w p g ≡ true) ↔ IsMember text w p g
unfolding is_member
is_member-IsMember text w p g =
    let owned = is_childs-IsChilds text w.child_processes p.pid (norm text p.name) in
    elim (Bool-cases (mem? (norm text p.name) g.members)) [
      | inl named ↦ ((λ h. inl named), (λ h. ground arith))
      | inr unnamed ↦ elim (Bool-cases (mem? p.pid g.matched.programs)) [
        | inl found ↦ (
          (λ h. inr (inl found, owned.0 (ground arith))),
          (λ h. elim h [
            | inl named ↦ absurd ground arith
            | inr (how, own) ↦ ground (arith, owned.1 own)
          ]),
        )
        | inr unfound ↦ (
          (λ h. inr (inr (ground arith), owned.0 (ground arith))),
          (λ h. elim h [
            | inl named ↦ absurd ground arith
            | inr (inl found, own) ↦ absurd ground arith
            | inr (inr browser, own) ↦ ground (arith, owned.1 own)
          ]),
        )
      ]
    ]

-- The process must go: its name is blocked, or has used up a limit of its own, or it is a member
-- of a group whose pool is used up.
abbrev pub MustStop : Text → Sweep → RunningProcess → Type 0
MustStop text w p =
    (mem? (norm text p.name) w.targets.blocked ≡ true)
    ⊎ (((limit : ℕ) × (lookup (norm text p.name) w.targets.app_limits ≡ some limit)
          × (limit * 60 ≤ unwrap_or (lookup (norm text p.name) w.usage.per_app_secs) 0))
        ⊎ ((g : GroupTarget) × Memᴰ g w.targets.groups
            × ((g.limit_mins * 60 ≤ unwrap_or (lookup g.name w.usage.per_group_secs) 0)
                × IsMember text w p g)))

-- The pids that a list of actions closes, in order, and the names of the notices, normalised.
abbrev pub kills : List RuleAction → List ℕ
kills [] = []
kills (kill pid ∷ rest) = pid ∷ kills rest
kills (_ ∷ rest) = kills rest

abbrev pub told : Text → List RuleAction → List String
told text [] = []
told text (app_stopped app reason ∷ rest) = norm text app ∷ told text rest
told text (_ ∷ rest) = told text rest

module _ (text : Text) (w : Sweep) (p : RunningProcess) where
  -- The pool of the group is used up, and the process is a member of it.
  abbrev Closes : GroupTarget → Type 0
  Closes g =
      (g.limit_mins * 60 ≤ unwrap_or (lookup g.name w.usage.per_group_secs) 0)
      × (is_member text w p g ≡ true)

  not_first :
      (g x : GroupTarget) (gs : List GroupTarget)
      → ¬ Closes g
      → Memᴰ x (g ∷ gs)
      → Closes x
      → (y : GroupTarget) × Memᴰ y gs × Closes y
  not_first g x gs no_g (Memᴰ.head e) c = absurd (no_g (subst Closes e c))
  not_first g x gs no_g (Memᴰ.tail m) c = (x, m, c)

  find_member :
      (gs : List GroupTarget)
      → (is_some (find (is_member text w p) (retain (pool_spent w.usage) gs)) ≡ true)
        ↔ ((g : GroupTarget) × Memᴰ g gs × Closes g)
  unfolding pool_spent
  find_member [] = (λ h. cc, λ h. elim h.1 [ ])
  find_member (g ∷ gs) =
      let ih = find_member gs in
      elim (Bool-cases (pool_spent w.usage g)) [
        | inl spent ↦ elim (Bool-cases (is_member text w p g)) [
          | inl yours ↦
              ((λ h. (g, Memᴰ.head refl, (ground arith, yours))), (λ h. rw (spent, yours) refl))
          | inr other ↦ (
            (λ h. let (x, m, c) = ih.0 (ground arith) in (x, Memᴰ.tail m, c)),
            (λ h. rw (spent, other) (ih.1 (not_first g h.0 gs (λ c. ground arith) h.1 h.2))),
          )
        ]
        | inr left ↦ (
          (λ h. let (x, m, c) = ih.0 (ground arith) in (x, Memᴰ.tail m, c)),
          (λ h. rw left (ih.1 (not_first g h.0 gs (λ c. ground arith) h.1 h.2))),
        )
      ]

  group_reason-some :
      (is_some (group_reason text w p) ≡ true)
      ↔ ((g : GroupTarget) × Memᴰ g w.targets.groups × Closes g)
  unfolding group_reason
  group_reason-some =
      let found = find_member w.targets.groups in
      ((λ h. found.0 (ground arith)), (λ h. ground (arith, found.1 h)))

  -- A group that closes the process, with the membership as it is stated.
  closing_group : (is_some (group_reason text w p) ≡ true) ↔ (
      (g : GroupTarget) × Memᴰ g w.targets.groups
      × ((g.limit_mins * 60 ≤ unwrap_or (lookup g.name w.usage.per_group_secs) 0)
          × IsMember text w p g))
  closing_group = (
    (λ h.
        let (g, m, (spent, yours)) = group_reason-some.0 h in
        (g, m, (spent, (is_member-IsMember text w p g).0 yours))),
    (λ h.
        let (g, m, (spent, yours)) = h in
        group_reason-some.1 (g, m, (spent, (is_member-IsMember text w p g).1 yours))),
  )

  stop_reason-MustStop : (is_some (stop_reason text w p) ≡ true) ↔ MustStop text w p
  unfolding stop_reason over_limit
  stop_reason-MustStop =
      let grouped = closing_group in
      elim (Bool-cases (mem? (norm text p.name) w.targets.blocked)) [
        | inl blocked ↦ ((λ h. inl blocked), (λ h. ground arith))
        | inr free ↦ elim (Option-cases (lookup (norm text p.name) w.targets.app_limits)) [
          | inl unlimited ↦ (
            (λ h. inr (inr (grouped.0 (ground arith)))),
            (λ h. elim h [
              | inl b ↦ ground arith
              | inr (inl (limit, l, u)) ↦ ground arith
              | inr (inr g) ↦ ground (arith, grouped.1 g)
            ]),
          )
          | inr (lim, limited) ↦ elim (Bool-cases (over_limit text w (norm text p.name) lim)) [
            | inl over ↦ ((λ h. inr (inl (lim, limited, ground arith))), (λ h. ground arith))
            | inr under ↦ (
              (λ h. inr (inr (grouped.0 (ground arith)))),
              (λ h. elim h [
                | inl b ↦ ground arith
                | inr (inl (limit, l, u)) ↦ ground arith
                | inr (inr g) ↦ ground (arith, grouped.1 g)
              ]),
            )
          ]
        ]
      ]

abbrev pub stops : Text → Sweep → RunningProcess → Bool
stops text w p = is_some (stop_reason text w p)

sweep-kills :
    (text : Text) (w : Sweep) (ps : List RunningProcess) (announced : List String)
    → kills (sweep text w ps announced).1 ≡ map (λ p. p.pid) (retain (stops text w) ps)
unfolding sweep
sweep-kills text w [] announced = refl
sweep-kills text w (p ∷ ps) announced =
    ground
      (arith, sweep-kills text w ps announced, sweep-kills text w ps (norm text p.name ∷ announced))

-- A tick closes exactly the processes that must go, in the order of the process list: those that
-- are blocked, over a limit of their own, or in a group whose pool is used up. A process is in a
-- group by its name, or because the group's words found it or a page in it and the snapshot of the
-- child's processes has it under the same name.
pub sweep-MustStop :
    (text : Text) (w : Sweep) (ps : List RunningProcess) (announced : List String)
    → (test : RunningProcess → Bool) × ((p : RunningProcess) → (test p ≡ true) ↔ MustStop text w p)
      × (kills (sweep text w ps announced).1 ≡ map (λ p. p.pid) (retain test ps))
sweep-MustStop text w ps announced =
    (stops text w, stop_reason-MustStop text w, sweep-kills text w ps announced)
