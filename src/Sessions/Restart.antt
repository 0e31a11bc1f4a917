-- ===== src/Sessions/Restart.antt =====
-- What a restart keeps of the sessions (src/sessionstore.rs).
use nestwatch.Common.{
  ℕ, ◌≤◌, ◌≡◌, refl, ap, ◌∙◌, Bool, true, false, Option, none, some, List, [], ◌∷◌, retain, ltb,
  is_some, unwrap_or, All, All-retain, arith, Bool-cases, Option-cases, inl, inr,
}
use nestwatch.Common.Keyed.{
  Eq, ◌=?◌, lookup, insert, remove, filtered, IsMap, insert-IsMap, remove-IsMap, retain-IsMap,
  lookup-insert, lookup-Fresh, lookup-retain,
}
use nestwatch.Sessions.{
  SessionRecord, Io, FileSessionStore, is_live, collect, values, new, persist, clear_all,
  remove_each, revoke_all, create, save, load, delete, unused, holds,
}

pub data SessionOp (Key Content : Type 0) : Type 0 where
  clear : SessionOp Key Content
  revoking : List Key → SessionOp Key Content
  creating : List Key → SessionRecord Key Content → SessionOp Key Content
  saving : SessionRecord Key Content → SessionOp Key Content
  deleting : Key → SessionOp Key Content

abbrev or_else : {A : Type 0} → Option A → Option A → Option A
or_else none b = b
or_else (some a) b = some a

or_none : {A : Type 0} (o : Option A) → or_else o none ≡ o
or_none none = refl
or_none (some a) = refl

module _ {Key Content : Type 0} ⦃keys : Eq Key⦄ ⦃contents : Eq Content⦄ where
  -- Each record stands under its own identifier.
  abbrev pub Agrees : List (Key × SessionRecord Key Content) → Type 0
  Agrees m = All (λ x. x.0 ≡ x.1.id) m

  -- The file holds exactly the records of the map.
  pub record IsSynced (s : FileSessionStore Key Content) : Type 0 where
    pub on_disk : s.has_path ≡ true
    pub is_map : IsMap s.map
    pub agrees : Agrees s.map
    pub same : unwrap_or s.file [] ≡ values s.map

  abbrev created :
      FileSessionStore Key Content
      → Option (FileSessionStore Key Content × Key)
      → FileSessionStore Key Content
  created s none = s
  created s (some (t, id)) = t

  unfoldable pub perform :
      FileSessionStore Key Content → Io × SessionOp Key Content → FileSessionStore Key Content
  perform s (io, clear) = clear_all io s
  perform s (io, revoking ids) = (revoke_all io ids s).0
  perform s (io, creating draws r) = created s (create io draws r s)
  perform s (io, saving r) = save io r s
  perform s (io, deleting id) = delete io id s

  unfoldable pub run :
      FileSessionStore Key Content
      → List (Io × SessionOp Key Content)
      → FileSessionStore Key Content
  run s [] = s
  run s (x ∷ xs) = run (perform s x) xs

  Agrees-insert :
      (r : SessionRecord Key Content) (m : List (Key × SessionRecord Key Content))
      → Agrees m
      → Agrees (insert r.id r m)
  unfolding insert
  Agrees-insert r [] h = (refl, tt)
  Agrees-insert r ((k, v) ∷ m) h = elim (Bool-cases (k =? r.id)) [
    | inl same ↦ rw (insert, same) ((keys.beq_iff k r.id).0 same, h.1)
    | inr other ↦ rw (insert, other) (h.0, Agrees-insert r m h.1)
  ]

  Agrees-remove :
      (id : Key) (m : List (Key × SessionRecord Key Content)) → Agrees m → Agrees (remove id m)
  unfolding remove
  Agrees-remove id [] h = h
  Agrees-remove id ((k, v) ∷ m) h = elim (Bool-cases (k =? id)) [
    | inl same ↦ rw (remove, same) (Agrees-remove id m h.1)
    | inr other ↦ rw (remove, other) (h.0, Agrees-remove id m h.1)
  ]

  persist-IsSynced :
      (io : Io) (s : FileSessionStore Key Content)
      → io.written ≡ true
      → s.has_path ≡ true
      → IsMap s.map
      → Agrees s.map
      → IsSynced (persist io s)
  unfolding persist
  persist-IsSynced io s w p m a =
      rw (persist, p, w)
        (record {
          on_disk = refl;
          is_map =
              retain-IsMap (λ (x : Key × SessionRecord Key Content). is_live io.now x.1) s.map m;
          agrees =
              All-retain (λ (x : Key × SessionRecord Key Content). x.0 ≡ x.1.id)
                (λ (x : Key × SessionRecord Key Content). is_live io.now x.1) s.map a;
          same = refl;
        })

  remove_each-keeps :
      (ids : List Key) (m : List (Key × SessionRecord Key Content))
      → IsMap m
      → Agrees m
      → IsMap (remove_each ids m).0 × Agrees (remove_each ids m).0
  unfolding remove_each
  remove_each-keeps [] m h a = (h, a)
  remove_each-keeps (id ∷ ids) m h a =
      remove_each-keeps ids (remove id m) (remove-IsMap id m h) (Agrees-remove id m a)

  remove_absent :
      (id : Key) (m : List (Key × SessionRecord Key Content))
      → is_some (lookup id m) ≡ false
      → remove id m ≡ m
  unfolding remove lookup
  remove_absent id [] h = refl
  remove_absent id ((k, v) ∷ m) h = ground (arith, remove_absent id m)

  -- Where none of the identifiers is in the map, it is not touched.
  remove_each-none :
      (ids : List Key) (m : List (Key × SessionRecord Key Content))
      → ltb 0 (remove_each ids m).1 ≡ false
      → (remove_each ids m).0 ≡ m
  unfolding remove_each
  remove_each-none [] m h = refl
  remove_each-none (id ∷ ids) m h =
      ground (arith, remove_each-none ids (remove id m), remove_absent id m)

  perform-IsSynced :
      (s : FileSessionStore Key Content) (io : Io) (op : SessionOp Key Content)
      → io.written ≡ true
      → IsSynced s
      → IsSynced (perform s (io, op))
  unfolding perform clear_all revoke_all create save delete
  perform-IsSynced s io clear w h = persist-IsSynced io (record s { map = [] }) w h.on_disk tt tt
  perform-IsSynced s io (revoking ids) w h =
      let (m, a) = remove_each-keeps ids s.map h.is_map h.agrees in
      elim (Bool-cases (ltb 0 (remove_each ids s.map).1)) [
        | inl some_gone ↦
            rw some_gone
              (persist-IsSynced io (record s { map = (remove_each ids s.map).0 }) w h.on_disk m a)
        | inr none_gone ↦
            rw (none_gone, remove_each-none ids s.map none_gone)
              (record { on_disk = h.on_disk; is_map = h.is_map; agrees = h.agrees; same = h.same })
      ]
  perform-IsSynced s io (creating draws r) w h = elim (Option-cases (unused s.map r.id draws)) [
    | inl exhausted ↦ rw (create, exhausted) h
    | inr (id, found) ↦
        rw (create, found)
          (persist-IsSynced io (record s { map = insert id (record r { id = id }) s.map }) w
            h.on_disk (insert-IsMap id (record r { id = id }) s.map h.is_map)
            (Agrees-insert (record r { id = id }) s.map h.agrees))
  ]
  perform-IsSynced s io (saving r) w h = elim (Bool-cases (holds (lookup r.id s.map) r)) [
    | inl held ↦ rw (save, held) h
    | inr fresh ↦
        rw (save, fresh)
          (persist-IsSynced io (record s { map = insert r.id r s.map }) w h.on_disk
            (insert-IsMap r.id r s.map h.is_map) (Agrees-insert r s.map h.agrees))
  ]
  perform-IsSynced s io (deleting id) w h = elim (Bool-cases (is_some (lookup id s.map))) [
    | inl present ↦ rw present (
        persist-IsSynced io (record s { map = remove id s.map }) w h.on_disk
          (remove-IsMap id s.map h.is_map) (Agrees-remove id s.map h.agrees))
    | inr absent ↦ rw absent h
  ]

  run-IsSynced :
      (s : FileSessionStore Key Content) (ops : List (Io × SessionOp Key Content))
      → All (λ x. x.0.written ≡ true) ops
      → IsSynced s
      → IsSynced (run s ops)
  unfolding run
  run-IsSynced s [] w h = h
  run-IsSynced s ((io, op) ∷ ops) w h =
      run-IsSynced (perform s (io, op)) ops w.1 (perform-IsSynced s io op w.0 h)

  values-retain :
      (p : SessionRecord Key Content → Bool) (m : List (Key × SessionRecord Key Content))
      → retain p (values m) ≡ values (retain (λ x. p x.1) m)
  values-retain p [] = refl
  values-retain p ((k, r) ∷ m) = ground (arith, values-retain p m)

  lookup-collect :
      (id : Key) (acc m : List (Key × SessionRecord Key Content))
      → IsMap m
      → Agrees m
      → lookup id (collect acc (values m)) ≡ or_else (lookup id m) (lookup id acc)
  unfolding collect lookup
  lookup-collect id acc [] h a = refl
  lookup-collect id acc ((k, r) ∷ m) h a =
      let ih = lookup-collect id (insert r.id r acc) m h.1 a.1 in
      let set = lookup-insert r.id id r acc in
      let gone = lookup-Fresh k m h.0 in
      ground (arith, ih, set, gone, keys.beq_iff k id, keys.beq_iff r.id id, a.0)

  new-IsSynced : (start : ℕ) → IsSynced (new none start)
  unfolding new collect
  new-IsSynced start = record { on_disk = refl; is_map = tt; agrees = tt; same = refl }

  -- A restart reads what the map holds, less what has expired by then.
  lookup-new :
      (s : FileSessionStore Key Content) (restart : ℕ) (id : Key)
      → IsSynced s
      → lookup id (new s.file restart).map ≡ filtered (is_live restart) (lookup id s.map)
  unfolding new lookup
  lookup-new s restart id h =
      let live = λ (x : Key × SessionRecord Key Content). is_live restart x.1 in
      let kept = retain live s.map in
      let read : lookup id (collect [] (values kept)) ≡ lookup id kept =
        lookup-collect id [] kept (retain-IsMap live s.map h.is_map)
          (All-retain (λ (x : Key × SessionRecord Key Content). x.0 ≡ x.1.id) live s.map h.agrees)
        ∙ or_none (lookup id kept) in
      rw (h.same, values-retain (is_live restart) s.map)
        (read ∙ lookup-retain id (is_live restart) s.map h.is_map)

filtered-later :
    {Key Content : Type 0} (restart now : ℕ) (o : Option (SessionRecord Key Content))
    → restart ≤ now
    → filtered (λ r. ltb now r.expiry_date) (filtered (λ r. ltb restart r.expiry_date) o)
      ≡ filtered (λ r. ltb now r.expiry_date) o
filtered-later restart now none h = refl
filtered-later restart now (some r) h = ground arith

-- Let every write of a store that starts with no file succeed. Then whatever was done to it, with
-- whatever the clock said, a restart brings back exactly the sessions that it would have gone on
-- serving: from the moment of the restart on, an identifier is answered as without it.
pub load-new :
    {Key Content : Type 0} ⦃keys : Eq Key⦄ ⦃contents : Eq Content⦄
    (ops : List (Io × SessionOp Key Content)) (start restart now : ℕ) (id : Key)
    → All (λ x. x.0.written ≡ true) ops
    → restart ≤ now
    → let s = run (new none start) ops in load now id (new s.file restart) ≡ load now id s
unfolding load
load-new ops start restart now id written later =
    let s = run (new none start) ops in
    let h = run-IsSynced (new none start) ops written (new-IsSynced start) in
    ap (filtered (is_live now)) (lookup-new s restart id h)
    ∙ filtered-later restart now (lookup id s.map) later
