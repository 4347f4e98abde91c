-- ===== src/Crossplane.antt =====
-- services/crossplane.py: `crossplane_check`, the PVs of the displays against what an IOC loads, the
-- Naming Service and ChannelFinder. The answers of the two services are arguments.
pub mod Report
pub mod Verdicts
use epics_mcp_server.Prelude.{
  ℕ, suc, Bool, true, false, not, ◌&&◌, Option, none, some, List, [], ◌∷◌, if◌then◌else◌, length,
  any,
}
use epics_mcp_server.Prelude.Texts.{Text, is_empty, text_eq, starts_with, member}
use epics_mcp_server.Prelude.Sorted.{sorted_set, text_lt}
use epics_mcp_server.Names.{record_name}
use epics_mcp_server.Coverage.{Registry, disabled, capped, failed, registered}

pub data Resolution : Type 0 where
  resolved dynamic unresolved : Resolution

pub data Role : Type 0 where
  read write : Role

pub data Protocol : Type 0 where
  ca pva loc sim sys other : Protocol

pub record JoinPv : Type 0 where
  pub display : Text
  pub pv : Text
  pub resolution : Resolution
  pub role : Role
  pub protocol : Protocol

pub record NamingResult : Type 0 where
  pub registered : Bool
  pub status : Text
  pub message : Text

-- Where a row belongs: the sets of the loop.
pub data Bucket : Type 0 where
  non_channel linked other_prefix residue_dynamic residue_unresolved : Bucket

abbrev is_real : Protocol → Bool
is_real ca = true
is_real pva = true
is_real _ = false

abbrev by_resolution : Resolution → Bool → Bucket
by_resolution resolved shares = if shares then linked else other_prefix
by_resolution dynamic shares = residue_dynamic
by_resolution unresolved shares = residue_unresolved

abbrev pub text_of : Option Text → Text
text_of none = []
text_of (some s) = s

abbrev pub shares_prefix : Option Text → Text → Bool
shares_prefix prefix pv = not (is_empty (text_of prefix)) && starts_with pv (text_of prefix)

unfoldable pub bucket : Option Text → JoinPv → Bucket
unfolding starts_with
bucket prefix jp =
    if not (is_real jp.protocol)
    then non_channel
    else by_resolution jp.resolution (shares_prefix prefix jp.pv)

abbrev pub is_linked : Bucket → Bool
is_linked linked = true
is_linked _ = false

abbrev pub is_other : Bucket → Bool
is_other other_prefix = true
is_other _ = false

abbrev pub is_dynamic : Bucket → Bool
is_dynamic residue_dynamic = true
is_dynamic _ = false

abbrev pub is_unresolved : Bucket → Bool
is_unresolved residue_unresolved = true
is_unresolved _ = false

abbrev pub is_non_channel : Bucket → Bool
is_non_channel non_channel = true
is_non_channel _ = false

abbrev pub is_write : Role → Bool
is_write read = false
is_write write = true

-- The PVs of the rows that pass a test.
unfoldable pub pvs_of : (JoinPv → Bool) → List JoinPv → List Text
pvs_of test [] = []
pvs_of test (jp ∷ rows) = let rest = pvs_of test rows in if test jp then jp.pv ∷ rest else rest

unfoldable pub displays_of : (JoinPv → Bool) → List JoinPv → List Text
displays_of test [] = []
displays_of test (jp ∷ rows) =
    let rest = displays_of test rows in if test jp then jp.display ∷ rest else rest

-- `len(indeterminate_pairs)`: each pair of a display and a PV counts once.
unfoldable pub count_pairs : (JoinPv → Bool) → List JoinPv → ℕ
unfolding text_eq
count_pairs test [] = 0
count_pairs test (jp ∷ rows) =
    let rest = count_pairs test rows in
    if test jp
      && not (any (λ r. test r && (text_eq r.display jp.display && text_eq r.pv jp.pv)) rows)
    then suc rest
    else rest

-- The PV names of the IOC's database: those that are resolved, and those that are not.
pub record IocDb : Type 0 where
  pub resolved : List Text
  pub unresolved : List Text

-- The members of a set that are not in another, and those that are.
unfoldable pub minus : List Text → List Text → List Text
unfolding member
minus xs [] = []
minus xs (y ∷ ys) = let rest = minus xs ys in if member y xs then rest else y ∷ rest

unfoldable pub meet : List Text → List Text → List Text
unfolding member
meet xs [] = []
meet xs (y ∷ ys) = let rest = meet xs ys in if member y xs then y ∷ rest else rest

-- `sorted` of a tuple, which may hold a text more than once.
insert_text : Text → List Text → List Text
unfolding text_lt
insert_text x [] = x ∷ []
insert_text x (t ∷ ts) =
    let later = insert_text x ts in if text_lt t x then t ∷ later else x ∷ t ∷ ts

unfoldable pub sorted : List Text → List Text
unfolding insert_text
sorted [] = []
sorted (t ∷ ts) = insert_text t (sorted ts)

abbrev pub no_texts : List Text → Bool
no_texts [] = true
no_texts (t ∷ ts) = false

-- Whether the absence of a record from the database is proved.
abbrev pub proves_absence : IocDb → Bool → Bool
proves_absence db complete = complete && (not (no_texts db.resolved) && no_texts db.unresolved)

unfoldable pub broken_records : Option IocDb → Bool → List Text → List Text
unfolding minus
broken_records none complete records = []
broken_records (some db) complete records =
    if proves_absence db complete then minus db.resolved records else []

abbrev pub broken_withheld : Option IocDb → Bool → Bool
broken_withheld none complete = false
broken_withheld (some db) complete = not (proves_absence db complete)

-- ChannelFinder is asked only about a prefix.
abbrev pub asked : Option Text → Registry → Registry
asked prefix registry = if is_empty (text_of prefix) then disabled else registry

unfoldable pub unregistered_records : Registry → List Text → List Text
unfolding minus
unregistered_records (registered names) records = minus names records
unregistered_records _ records = []

abbrev pub registry_size : Registry → ℕ
registry_size (registered names) = length (sorted_set names)
registry_size _ = 0

abbrev pub is_capped : Registry → Bool
is_capped capped = true
is_capped _ = false

abbrev pub is_failed : Registry → Bool
is_failed failed = true
is_failed _ = false

abbrev pub is_disabled : Registry → Bool
is_disabled disabled = true
is_disabled _ = false
