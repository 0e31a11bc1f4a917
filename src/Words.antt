-- ===== src/Words.antt =====
-- Words in app groups (src/words.rs): a word as it is typed, and what the words of a group match
-- among the programs and the visits of a check.
pub mod Matching
use nestwatch.Common.{
  ℕ, ◌+◌, String, Bool, true, false, not, ◌&&◌, ◌||◌, Option, none, some, List, [], ◌∷◌, map, ltb,
  any, all, retain, if◌then◌else◌, sat64, unwrap_or,
}
use nestwatch.Common.Keyed.{◌=?◌, string_keys, nat_keys, mem?}
use nestwatch.Text.{Text, norm}

abbrev pub min_word_chars : ℕ
min_word_chars = 3

abbrev pub max_rule_name : ℕ
max_rule_name = 64

abbrev pub max_rule_entries : ℕ
max_rule_entries = 200

abbrev pub max_word_typed : ℕ
max_word_typed = max_rule_name + 2

-- `INSTALL_EXE_NAME` of src/install.rs, and the program under its own name.
abbrev pub own_programs : List String
own_programs = "host-health.exe" ∷ "nestwatch.exe" ∷ []

abbrev pub windows_programs : List String
windows_programs =
    "applicationframehost.exe" ∷ "backgroundtaskhost.exe" ∷ "conhost.exe" ∷ "csrss.exe"
    ∷ "ctfmon.exe" ∷ "dllhost.exe" ∷ "dwm.exe" ∷ "explorer.exe" ∷ "fontdrvhost.exe" ∷ "gamebar.exe"
    ∷ "gamebarftserver.exe" ∷ "lockapp.exe" ∷ "lsass.exe" ∷ "msedgewebview2.exe" ∷ "rundll32.exe"
    ∷ "runtimebroker.exe" ∷ "searchapp.exe" ∷ "searchhost.exe" ∷ "securityhealthsystray.exe"
    ∷ "services.exe" ∷ "shellexperiencehost.exe" ∷ "sihost.exe" ∷ "smartscreen.exe" ∷ "smss.exe"
    ∷ "startmenuexperiencehost.exe" ∷ "svchost.exe" ∷ "taskhostw.exe" ∷ "textinputhost.exe"
    ∷ "wininit.exe" ∷ "winlogon.exe" ∷ []

-- `BROWSERS` and `is_browser` of src/foreground.rs, without the endings of their titles.
abbrev pub browsers : List String
browsers = "chrome.exe" ∷ "msedge.exe" ∷ "firefox.exe" ∷ "brave.exe" ∷ []

unfoldable pub is_browser : String → Bool
is_browser exe = mem? exe browsers

pub data WordProblem : Type 0 where
  too_short too_long unsupported : WordProblem

-- `Result<Option<String>, WordProblem>`.
pub data Normalised : Type 0 where
  refused : WordProblem → Normalised
  blank : Normalised
  word : String → Normalised

-- What one group matched: seconds in front, the browsers to close, and the programs.
pub record GroupMatch : Type 0 where
  pub page_secs : ℕ
  pub browsers : List String
  pub programs : List ℕ

abbrev pub no_match : GroupMatch
no_match = record { page_secs = 0; browsers = []; programs = [] }

-- `BTreeSet::insert`.
abbrev pub add_name : String → List String → List String
add_name s xs = if mem? s xs then xs else s ∷ xs

abbrev pub word_of : Normalised → List String
word_of (word w) = w ∷ []
word_of _ = []

abbrev pub is_word : Normalised → Bool
is_word (word w) = true
is_word _ = false

module _ (text : Text) where
  abbrev pub fold : String → String
  fold s = text.replace (text.replace (text.to_lowercase s) "̇" "") "ı" "i"

  -- A text without `.exe` at its end.
  abbrev pub stem : String → String
  stem s = unwrap_or (text.strip_suffix s ".exe") s

  unfoldable pub normalise : String → Normalised
  normalise raw =
      let w = text.trim (text.trim_percent (text.trim raw)) in
      let folded = stem (fold w) in
      if ltb max_word_typed (text.chars raw)
      then refused too_long
      else if text.is_empty w
      then blank
      else if text.has_odd w
      then refused unsupported
      else if ltb max_rule_name (text.chars w)
      then refused too_long
      else if ltb (text.chars folded) min_word_chars
      then refused too_short
      else word folded

  unfoldable pub is_usable : String → Bool
  unfolding normalise
  is_usable raw = is_word (normalise raw)

  unfoldable pub usable : List String → List String
  unfolding normalise
  usable [] = []
  usable (w ∷ ws) = elim (word_of (normalise w)) [ [] ↦ usable ws | f ∷ _ ↦ add_name f (usable ws) ]

  unfoldable pub program_stem : String → List String → Option String
  program_stem name spared =
      let key = norm text name in
      if mem? key own_programs || mem? key windows_programs || mem? key spared
      then none
      else some (stem (fold (text.trim name)))

  unfoldable pub stem_matches : List String → String → Bool
  stem_matches words s = any (λ w. text.contains s w) words

  -- The child's programs with their stems, those that no word may match left out.
  unfoldable pub stems : List (ℕ × String) → List String → List (ℕ × String)
  unfolding program_stem
  stems [] spared = []
  stems ((pid, name) ∷ ps) spared =
      let rest = stems ps spared in
      elim (program_stem name spared) [ none ↦ rest | some s ↦ (pid, s) ∷ rest ]

  -- The visits of a known browser: the browser, the folded text, the seconds.
  unfoldable pub visits : List (String × ℕ) → List (String × String × ℕ)
  unfolding is_browser
  visits [] = []
  visits ((key, secs) ∷ web) =
      let rest = visits web in
      elim (text.split_line key) [
        | none ↦ rest
        | some (exe, shown) ↦
            if is_browser (norm text exe) then (norm text exe, fold shown, secs) ∷ rest else rest
      ]

  unfoldable pub match_visits : List String → List (String × String × ℕ) → GroupMatch → GroupMatch
  unfolding stem_matches
  match_visits words [] m = m
  match_visits words ((exe, shown, secs) ∷ vs) m = match_visits words vs (
      if stem_matches words shown
      then record m { page_secs = sat64 m.page_secs secs; browsers = add_name exe m.browsers }
      else m)

  unfoldable pub match_programs : List String → List (ℕ × String) → List ℕ
  unfolding stem_matches
  match_programs words ps = map (λ p. p.0) (retain (λ p. stem_matches words p.1) ps)

  abbrev pub match_group : List (ℕ × String) → List (String × String × ℕ) → List String → GroupMatch
  match_group ps vs words = record (match_visits words vs no_match) {
    programs = match_programs words ps;
  }

  abbrev pub no_words : List String → Bool
  no_words [] = true
  no_words (w ∷ ws) = false

  unfoldable pub match_groups :
      List (List String)
      → List (String × ℕ)
      → Option (List (ℕ × String))
      → List String
      → List GroupMatch
  unfolding stems visits match_visits match_programs
  match_groups groups web child spared =
      if all no_words groups
      then map (λ _. no_match) groups
      else map (match_group (stems (unwrap_or child []) spared) (visits web)) groups
