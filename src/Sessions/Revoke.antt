-- ===== src/Sessions/Revoke.antt =====
-- What signing devices out does, and how an identifier is chosen (src/sessionstore.rs).
use nestwatch.Common.{
  ℕ, ◌≤◌, ◌≡◌, refl, ap, ◌∙◌, true, false, not, Option, none, some, List, [], ◌∷◌, any, is_some,
  arith, Bool-cases, Option-cases, inl, inr,
}
use nestwatch.Common.Keyed.{
  Eq, ◌=?◌, mem?, lookup, insert, filtered, IsMap, insert-IsMap, lookup-retain, lookup-insert,
  lookup-insert_self, beq_self,
}
use nestwatch.Sessions.{SessionRecord, Io, FileSessionStore, is_live, persist, create, load, unused}

module _ {Key Content : Type 0} ⦃keys : Eq Key⦄ ⦃contents : Eq Content⦄ where
  filtered_twice :
      (before now : ℕ) (o : Option (SessionRecord Key Content))
      → before ≤ now
      → filtered (is_live now) (filtered (is_live before) o) ≡ filtered (is_live now) o
  filtered_twice before now none h = refl
  filtered_twice before now (some r) h = ground arith

  -- That the expired records are dropped on the way is not seen from then on.
  pub load-persist :
      (io : Io) (s : FileSessionStore Key Content) (now : ℕ) (id : Key)
      → IsMap s.map
      → io.now ≤ now
      → load now id (persist io s) ≡ load now id s
  unfolding load persist
  load-persist io s now id h later = elim (Bool-cases s.has_path) [
    | inl on_disk ↦
        rw (persist, on_disk, lookup-retain id (is_live io.now) s.map h)
          (filtered_twice io.now now (lookup id s.map) later)
    | inr in_memory ↦ rw (persist, in_memory) refl
  ]

  -- The identifier found, if any, is one of those offered and has no session.
  abbrev pub IsUnused : List (Key × SessionRecord Key Content) → List Key → Option Key → Type 0
  IsUnused m offered none = ⊥
  IsUnused m offered (some id) = (lookup id m ≡ none) × (mem? id offered ≡ true)

  IsUnused-more :
      (m : List (Key × SessionRecord Key Content)) (id : Key) (offered : List Key)
      (found : Option Key)
      → IsUnused m offered found
      → IsUnused m (id ∷ offered) found
  unfolding mem?
  IsUnused-more m id offered none h = h
  IsUnused-more m id offered (some k) h = (h.0, ground arith)

  unused-IsUnused :
      (m : List (Key × SessionRecord Key Content)) (id : Key) (draws : List Key)
      → any (λ k. not (is_some (lookup k m))) (id ∷ draws) ≡ true
      → IsUnused m (id ∷ draws) (unused m id draws)
  unfolding unused mem?
  unused-IsUnused m id [] h = elim (Option-cases (lookup id m)) [
    | inl absent ↦ rw (unused, absent) (absent, ground (arith, beq_self id))
    | inr (r, taken) ↦ absurd ground arith
  ]
  unused-IsUnused m id (next ∷ draws) h = elim (Option-cases (lookup id m)) [
    | inl absent ↦ rw (unused, absent) (absent, ground (arith, beq_self id))
    | inr (r, taken) ↦
        rw (unused, taken)
          (IsUnused-more m id (next ∷ draws) _ (unused-IsUnused m next draws (ground arith)))
  ]

module _ {Key Content : Type 0} ⦃keys : Eq Key⦄ ⦃contents : Eq Content⦄ where
  -- A session was made under an identifier that was free, and every other one is as it was.
  abbrev pub Makes :
      ℕ
      → List Key
      → SessionRecord Key Content
      → FileSessionStore Key Content
      → Option (FileSessionStore Key Content × Key)
      → Type 0
  Makes now offered r s none = ⊥
  Makes now offered r s (some (t, id)) =
      (lookup id s.map ≡ none)
      × (mem? id offered ≡ true)
      × (load now id t ≡ filtered (is_live now) (some (record r { id = id })))
      × ((other : Key) → (id =? other) ≡ false → load now other t ≡ load now other s)

  create-found :
      (io : Io) (draws : List Key) (r : SessionRecord Key Content)
      (s : FileSessionStore Key Content) (now : ℕ) (o : Option Key)
      → IsMap s.map
      → io.now ≤ now
      → unused s.map r.id draws ≡ o
      → IsUnused s.map (r.id ∷ draws) o
      → Makes now (r.id ∷ draws) r s (create io draws r s)
  unfolding create load
  create-found io draws r s now none h later e u = absurd u
  create-found io draws r s now (some id) h later e u =
      let made : FileSessionStore Key Content = record s {
        map = insert id (record r { id = id }) s.map;
      } in
      let own = record r { id = id } in
      let kept = λ (k : Key).
        load-persist io made now k (insert-IsMap id (record r { id = id }) s.map h) later in
      rw (create, e)
        (
          u.0,
          u.1,
          kept id ∙ ap (filtered (is_live now)) (lookup-insert_self id own s.map),
          λ other ne.
              kept other
              ∙ ap (filtered (is_live now)) (lookup-insert id other own s.map ∙ rw ne refl),
        )

-- Where one of the identifiers that are offered is free (the record's own or one of those drawn),
-- a session is always made, and never in the place of another: it gets one of them that was free,
-- it is loaded under it until it expires, and every other session is as before.
pub create-Makes :
    {Key Content : Type 0} ⦃keys : Eq Key⦄ ⦃contents : Eq Content⦄ (io : Io) (draws : List Key)
    (r : SessionRecord Key Content) (s : FileSessionStore Key Content) (now : ℕ)
    → IsMap s.map
    → io.now ≤ now
    → any (λ k. not (is_some (lookup k s.map))) (r.id ∷ draws) ≡ true
    → Makes now (r.id ∷ draws) r s (create io draws r s)
create-Makes io draws r s now h later free =
    create-found io draws r s now (unused s.map r.id draws) h later refl
      (unused-IsUnused s.map r.id draws free)
