-- ===== src/Sessions.antt =====
-- The sessions and their file (src/sessionstore.rs). The mutex makes each operation one step. The
-- clock, whether the file is written, and the identifiers that are drawn are inputs; a write that
-- fails leaves the file as it was. A moment is a number of nanoseconds.
pub mod Restart
pub mod Revoke
use nestwatch.Common.{
  ℕ, ◌+◌, Bool, true, false, ◌&&◌, Option, none, some, List, [], ◌∷◌, retain, ltb, ◌==◌,
  if◌then◌else◌, is_some, unwrap_or,
}
use nestwatch.Common.Keyed.{Eq, ◌=?◌, lookup, insert, remove, filtered}

pub record SessionRecord (Key Content : Type 0) : Type 0 where
  pub id : Key
  pub content : Content
  pub expiry_date : ℕ

-- What the world answers to one operation.
pub record Io : Type 0 where
  pub now : ℕ
  pub written : Bool

-- The file is absent, unreadable or the list that was written; a store with no path has none.
pub record FileSessionStore (Key Content : Type 0) : Type 0 where
  pub has_path : Bool
  pub map : List (Key × SessionRecord Key Content)
  pub file : Option (List (SessionRecord Key Content))

module _ {Key Content : Type 0} ⦃keys : Eq Key⦄ ⦃contents : Eq Content⦄ where
  abbrev pub is_live : ℕ → SessionRecord Key Content → Bool
  is_live now r = ltb now r.expiry_date

  -- `collect` into a map: a later entry replaces one of the same key.
  unfoldable pub collect :
      List (Key × SessionRecord Key Content)
      → List (SessionRecord Key Content)
      → List (Key × SessionRecord Key Content)
  collect m [] = m
  collect m (r ∷ rs) = collect (insert r.id r m) rs

  abbrev pub values : List (Key × SessionRecord Key Content) → List (SessionRecord Key Content)
  values [] = []
  values ((k, r) ∷ m) = r ∷ values m

  unfoldable pub new : Option (List (SessionRecord Key Content)) → ℕ → FileSessionStore Key Content
  new file now = record {
    has_path = true;
    map = collect [] (retain (is_live now) (unwrap_or file []));
    file = file;
  }

  unfoldable pub ephemeral : FileSessionStore Key Content
  ephemeral = record { has_path = false; map = []; file = none }

  unfoldable pub persist : Io → FileSessionStore Key Content → FileSessionStore Key Content
  persist io s =
      if s.has_path
      then (let kept = retain (λ x. is_live io.now x.1) s.map in
          record s { map = kept; file = if io.written then some (values kept) else s.file })
      else s

  unfoldable pub clear_all : Io → FileSessionStore Key Content → FileSessionStore Key Content
  clear_all io s = persist io (record s { map = [] })

  unfoldable pub snapshot : ℕ → FileSessionStore Key Content → List (SessionRecord Key Content)
  snapshot now s = retain (is_live now) (values s.map)

  -- The map without the identifiers, and how many of them it had.
  unfoldable pub remove_each :
      List Key → List (Key × SessionRecord Key Content) → List (Key × SessionRecord Key Content) × ℕ
  remove_each [] m = (m, 0)
  remove_each (id ∷ ids) m =
      let (rest, removed) = remove_each ids (remove id m) in
      (rest, if is_some (lookup id m) then removed + 1 else removed)

  unfoldable pub revoke_all :
      Io → List Key → FileSessionStore Key Content → FileSessionStore Key Content × ℕ
  revoke_all io ids s =
      let (rest, removed) = remove_each ids s.map in
      let left = record s { map = rest } in
      ((if ltb 0 removed then persist io left else left), removed)

  unfoldable pub revoke :
      Io → Key → FileSessionStore Key Content → FileSessionStore Key Content × Bool
  revoke io id s = let (t, removed) = revoke_all io (id ∷ []) s in (t, removed == 1)

  -- The first identifier not in use: that of the record, then those drawn. The loop of the source
  -- goes on drawing; here the draws are a list, and `none` says that it ran out.
  unfoldable pub unused : List (Key × SessionRecord Key Content) → Key → List Key → Option Key
  unused m id [] = if is_some (lookup id m) then none else some id
  unused m id (next ∷ draws) =
      let drawn = unused m next draws in if is_some (lookup id m) then drawn else some id

  unfoldable pub create :
      Io
      → List Key
      → SessionRecord Key Content
      → FileSessionStore Key Content
      → Option (FileSessionStore Key Content × Key)
  create io draws r s = elim (unused s.map r.id draws) [
    | none ↦ none
    | some id ↦ some (persist io (record s { map = insert id (record r { id = id }) s.map }), id)
  ]

  abbrev pub same_record : SessionRecord Key Content → SessionRecord Key Content → Bool
  same_record a b = (a.id =? b.id) && (a.content =? b.content) && (a.expiry_date == b.expiry_date)

  abbrev pub holds : Option (SessionRecord Key Content) → SessionRecord Key Content → Bool
  holds none r = false
  holds (some q) r = same_record q r

  unfoldable pub save :
      Io → SessionRecord Key Content → FileSessionStore Key Content → FileSessionStore Key Content
  save io r s =
      if holds (lookup r.id s.map) r then s else persist io (record s { map = insert r.id r s.map })

  unfoldable pub load : ℕ → Key → FileSessionStore Key Content → Option (SessionRecord Key Content)
  load now id s = filtered (is_live now) (lookup id s.map)

  unfoldable pub delete : Io → Key → FileSessionStore Key Content → FileSessionStore Key Content
  delete io id s =
      if is_some (lookup id s.map) then persist io (record s { map = remove id s.map }) else s
