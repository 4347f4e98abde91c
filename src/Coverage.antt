-- ===== src/Coverage.antt =====
-- services/coverage.py: `audit_coverage`, which PVs that ChannelFinder delivers lack a display, an
-- archive or an alarm. The answers of the planes are arguments; the notes are not modelled.
pub mod Shown
pub mod Gaps
pub mod Sets
use epics_mcp_server.Prelude.{
  ℕ, ◌+◌, String, Bool, true, false, not, ◌&&◌, ◌||◌, Option, none, some, List, [], ◌∷◌, ◌++◌, map,
  if◌then◌else◌, length,
}
use epics_mcp_server.Prelude.Texts.{member, Text, is_empty, text_eq, starts_with}
use epics_mcp_server.Prelude.Sorted.{sorted_set}
use epics_mcp_server.Names.{record_name}

pub record IndexRow : Type 0 where
  pub pv : Text
  pub displays : List Text
  pub roles : List Text

-- `Coverage3`
pub data Cell : Type 0 where
  yes no withheld : Cell

-- The answer of `registered_under`, or none of it.
pub data Registry : Type 0 where
  disabled capped failed : Registry
  registered : List Text → Registry

-- A plane that is not wired has no checker; `none` of a checker is its RuntimeError.
abbrev pub Checker : Type 0
Checker = Option (Text → Option Bool)

abbrev merged : IndexRow → IndexRow → IndexRow
merged prev row = record {
  pv = prev.pv;
  displays = sorted_set (prev.displays ++ row.displays);
  roles = sorted_set (prev.roles ++ row.roles);
}

-- `display_rows[rec] = …`: a record that is there already is merged with.
unfoldable pub add_row : IndexRow → List IndexRow → List IndexRow
unfolding sorted_set text_eq
add_row row [] = row ∷ []
add_row row (r ∷ rows) =
    let later = add_row row rows in if text_eq r.pv row.pv then merged r row ∷ rows else r ∷ later

-- The loop over `index_rows`, from the rows so far.
unfoldable pub add_rows : Text → List IndexRow → List IndexRow → List IndexRow
unfolding record_name add_row
add_rows scope rows [] = rows
add_rows scope rows (row ∷ index) =
    let rec_ = record_name row.pv in
    let added = add_row (record { pv = rec_; displays = row.displays; roles = row.roles }) rows in
    add_rows scope (if not (is_empty scope) && not (starts_with rec_ scope) then rows else added)
      index

abbrev row_pv : IndexRow → Text
row_pv r = r.pv

abbrev pub names_of : List IndexRow → List Text
names_of rows = map row_pv rows

-- `display_rows.get(pv)`
unfoldable pub find_row : Text → List IndexRow → Option IndexRow
unfolding text_eq
find_row pv [] = none
find_row pv (r ∷ rows) = let later = find_row pv rows in if text_eq r.pv pv then some r else later

-- The set C; empty where ChannelFinder is withheld.
unfoldable pub cf_set : Registry → List Text
unfolding record_name
cf_set (registered names) = map record_name names
cf_set _ = []

abbrev pub is_live : Registry → Bool
is_live (registered names) = true
is_live _ = false

abbrev is_capped : Registry → Bool
is_capped capped = true
is_capped _ = false

abbrev count_registered : Registry → ℕ
count_registered (registered names) = length names
count_registered _ = 0

abbrev pub answer_cell : Option Bool → Cell
answer_cell none = withheld
answer_cell (some true) = yes
answer_cell (some false) = no

-- `_plane_verdict`
unfoldable pub plane_verdict : Checker → Text → Cell
plane_verdict none pv = withheld
plane_verdict (some call) pv = answer_cell (call pv)

pub record PvCoverageRow : Type 0 where
  pub pv : Text
  pub has_display : Cell
  pub registered_cf : Cell
  pub archived : Cell
  pub alarmed : Cell
  pub displays : List Text
  pub roles : List Text

pub record Planes : Type 0 where
  pub channelfinder : Registry
  pub archived : Checker
  pub alarmed : Checker

abbrev pub is_no : Cell → Bool
is_no no = true
is_no _ = false

abbrev pub is_yes : Cell → Bool
is_yes yes = true
is_yes _ = false

abbrev row_displays : Option IndexRow → List Text
row_displays none = []
row_displays (some r) = r.displays

abbrev row_roles : Option IndexRow → List Text
row_roles none = []
row_roles (some r) = r.roles

-- `has_display`, of a PV that is in D or not, with D complete or not.
abbrev pub display_cell : Bool → Bool → Cell
display_cell in_display incomplete = if in_display then yes else if incomplete then withheld else no

abbrev pub registry_cell : Registry → Text → Cell
registry_cell registry pv =
    if not (is_live registry) then withheld else if member pv (cf_set registry) then yes else no

unfoldable pub row_for : Planes → List IndexRow → Bool → Text → PvCoverageRow
unfolding member cf_set plane_verdict find_row
row_for planes display_rows incomplete pv =
    let src = find_row pv display_rows in
    record {
      pv = pv;
      has_display = display_cell (member pv (names_of display_rows)) incomplete;
      registered_cf = registry_cell planes.channelfinder pv;
      archived = plane_verdict planes.archived pv;
      alarmed = plane_verdict planes.alarmed pv;
      displays = row_displays src;
      roles = row_roles src;
    }

-- The PVs of the rows that pass a test, in their order.
unfoldable pub select : (PvCoverageRow → Bool) → List PvCoverageRow → List Text
select p [] = []
select p (r ∷ rows) = let later = select p rows in if p r then r.pv ∷ later else later

abbrev pub is_critical : PvCoverageRow → Bool
is_critical r =
    is_yes r.registered_cf && (is_no r.has_display || (is_no r.archived || is_no r.alarmed))

abbrev pub only : (Text → Bool) → List Text → List Text
only p [] = []
only p (t ∷ ts) = let later = only p ts in if p t then t ∷ later else later

abbrev is_wired : Checker → Bool
is_wired none = false
is_wired (some call) = true

-- `planes_live`
abbrev live_planes : Planes → List String
live_planes planes =
    "display"
    ∷ ((if is_live planes.channelfinder then "channelfinder" ∷ [] else [])
        ++ ((if is_wired planes.archived then "archiver" ∷ [] else [])
            ++ (if is_wired planes.alarmed then "alarm" ∷ [] else [])))

pub record CoverageReport : Type 0 where
  pub scope : Text
  pub planes_live : List String
  pub rows : List PvCoverageRow
  pub cf_and_display : List Text
  pub cf_only : List Text
  pub display_only : List Text
  pub critical_uncovered : List Text
  pub blind_spots : List Text
  pub unarchived : List Text
  pub unalarmed : List Text
  pub cf_registered : ℕ
  pub cf_capped : Bool
  pub displays_incomplete : List Text

abbrev no_texts : List Text → Bool
no_texts [] = true
no_texts (t ∷ ts) = false

abbrev pub when_live : Registry → List Text → List Text
when_live registry ts = if is_live registry then ts else []

-- The list of `sorted(universe)`: C is empty where ChannelFinder is not live.
unfoldable pub universe : Planes → List IndexRow → List Text
unfolding sorted_set cf_set
universe planes display_rows = sorted_set (cf_set planes.channelfinder ++ names_of display_rows)

unfoldable pub audit_coverage : Planes → Text → List Text → List IndexRow → CoverageReport
unfolding add_rows universe row_for select member sorted_set cf_set
audit_coverage planes scope context_capped index =
    let display_rows = add_rows scope [] index in
    let c = cf_set planes.channelfinder in
    let d = names_of display_rows in
    let rows =
      map (row_for planes display_rows (not (no_texts context_capped)))
        (universe planes display_rows) in
    record {
      scope = scope;
      planes_live = live_planes planes;
      rows = rows;
      cf_and_display = when_live planes.channelfinder (sorted_set (only (λ t. member t d) c));
      cf_only = when_live planes.channelfinder (sorted_set (only (λ t. not (member t d)) c));
      display_only = when_live planes.channelfinder (sorted_set (only (λ t. not (member t c)) d));
      critical_uncovered = select is_critical rows;
      blind_spots = select (λ r. is_yes r.registered_cf && is_no r.has_display) rows;
      unarchived = select (λ r. is_yes r.registered_cf && is_no r.archived) rows;
      unalarmed = select (λ r. is_yes r.registered_cf && is_no r.alarmed) rows;
      cf_registered = count_registered planes.channelfinder;
      cf_capped = is_capped planes.channelfinder;
      displays_incomplete = sorted_set context_capped;
    }
