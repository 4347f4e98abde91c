-- ===== src/Crossplane/Report.antt =====
-- services/crossplane.py: the report of `crossplane_check` and its notes.
use epics_mcp_server.Prelude.{
  ℕ, ◌+◌, Bool, true, false, not, ◌&&◌, ◌||◌, Option, none, some, List, [], ◌∷◌, map, ltb, leb,
  length,
}
use epics_mcp_server.Prelude.Texts.{Text, is_empty}
use epics_mcp_server.Prelude.Sorted.{sorted_set}
use epics_mcp_server.Names.{record_name}
use epics_mcp_server.Coverage.{Registry}
use epics_mcp_server.Crossplane.{
  sorted, JoinPv, NamingResult, IocDb, bucket, is_linked, is_other, is_dynamic, is_unresolved,
  is_non_channel, is_write, pvs_of, displays_of, count_pairs, meet, text_of, no_texts,
  broken_records, broken_withheld, asked, unregistered_records, registry_size, is_capped, is_failed,
  is_disabled,
}

-- The caveats of a report, each with the counts that its text gives.
pub data Note : Type 0 where
  no_prefix : Note
  residue : ℕ → ℕ → Note
  non_channels contexts_capped globs_capped : ℕ → Note
  almost_nothing no_db broken_is_withheld : Note
  needs_msi : ℕ → Note
  cf_skipped cf_capped_note cf_failed cf_lower_bound : Note
  cf_ratio : ℕ → ℕ → Note

-- The arguments of `crossplane_check`; the prefix and the device name are those of the st.cmd. A
-- naming checker answers `none` for a NamingServiceResponseError.
pub record Inputs : Type 0 where
  pub prefix : Option Text
  pub device_name : Option Text
  pub naming : Option (Text → Option NamingResult)
  pub ioc_db : Option IocDb
  pub ioc_db_complete : Bool
  pub channelfinder : Registry
  pub cf_requested : Bool
  pub context_capped : List Text
  pub glob_capped_count : ℕ

pub record CrossPlaneReport : Type 0 where
  pub ioc_prefix : Option Text
  pub ioc_device_name : Option Text
  pub naming : Option NamingResult
  pub displays_linked : List Text
  pub pvs_linked : List Text
  pub pvs_linked_write : List Text
  pub pvs_other_prefix : List Text
  pub pvs_indeterminate : List Text
  pub pvs_indeterminate_occurrences : ℕ
  pub pvs_dynamic : List Text
  pub pvs_unresolved : List Text
  pub pvs_non_channel : List Text
  pub displays_incomplete : List Text
  pub ioc_db_resolved : ℕ
  pub ioc_db_needs_msi : ℕ
  pub broken : List Text
  pub broken_write : List Text
  pub cf_unregistered : List Text
  pub cf_unregistered_write : List Text
  pub cf_registered : ℕ
  pub cf_capped : Bool
  pub notes : List Note

abbrev add_if : Bool → Note → List Note → List Note
add_if true note notes = note ∷ notes
add_if false note notes = notes

abbrev named : Option Text → Option (Text → Option NamingResult) → Option NamingResult
named name none = none
named none (some lookup) = none
named (some []) (some lookup) = none
named (some (c ∷ s)) (some lookup) = lookup (c ∷ s)

abbrev db_resolved : Option IocDb → ℕ
db_resolved none = 0
db_resolved (some db) = length (sorted_set db.resolved)

abbrev db_needs_msi : Option IocDb → ℕ
db_needs_msi none = 0
db_needs_msi (some db) = length (sorted_set db.unresolved)

abbrev is_none {ℓ} : {A : Type ℓ} → Option A → Bool
is_none none = true
is_none (some a) = false

module _ (input : Inputs) (rows : List JoinPv) where
  abbrev pub linked_row : JoinPv → Bool
  linked_row jp = is_linked (bucket input.prefix jp)

  abbrev pub written_row : JoinPv → Bool
  written_row jp = linked_row jp && is_write jp.role

  abbrev residue_row : JoinPv → Bool
  residue_row jp = is_dynamic (bucket input.prefix jp) || is_unresolved (bucket input.prefix jp)

  abbrev linked_pvs : List Text
  linked_pvs = sorted_set (pvs_of linked_row rows)

  abbrev other_pvs : List Text
  other_pvs = sorted_set (pvs_of (λ jp. is_other (bucket input.prefix jp)) rows)

  abbrev residue_pvs : List Text
  residue_pvs = sorted_set (pvs_of residue_row rows)

  abbrev non_channel_pvs : List Text
  non_channel_pvs = sorted_set (pvs_of (λ jp. is_non_channel (bucket input.prefix jp)) rows)

  -- `linked_records` and `linked_write_records`
  unfoldable pub linked_records : List Text
  unfolding bucket pvs_of record_name sorted_set
  linked_records = sorted_set (map record_name (pvs_of linked_row rows))

  unfoldable pub linked_write_records : List Text
  unfolding bucket pvs_of record_name
  linked_write_records = map record_name (pvs_of written_row rows)

  unfoldable pub broken_of : List Text
  unfolding broken_records linked_records
  broken_of = broken_records input.ioc_db input.ioc_db_complete linked_records

  unfoldable pub unregistered_of : List Text
  unfolding unregistered_records linked_records
  unregistered_of = unregistered_records (asked input.prefix input.channelfinder) linked_records

  unfoldable pub notes_of : List Note
  unfolding sorted_set bucket pvs_of count_pairs unregistered_of linked_records
  notes_of =
      let registry = asked input.prefix input.channelfinder in
      let missing = length unregistered_of in
      let records = length linked_records in
      add_if (is_empty (text_of input.prefix)) no_prefix (
        add_if (not (no_texts residue_pvs))
          (residue (length residue_pvs) (count_pairs residue_row rows))
          (add_if (not (no_texts non_channel_pvs)) (non_channels (length non_channel_pvs)) (
            add_if (not (no_texts input.context_capped))
              (contexts_capped (length input.context_capped))
              (add_if (ltb 0 input.glob_capped_count) (globs_capped input.glob_capped_count) (
                add_if (no_texts linked_pvs && (no_texts other_pvs && not (no_texts residue_pvs)))
                  almost_nothing
                  (add_if (is_none input.ioc_db) no_db (
                    add_if (broken_withheld input.ioc_db input.ioc_db_complete) broken_is_withheld (
                      add_if (ltb 0 (db_needs_msi input.ioc_db))
                        (needs_msi (db_needs_msi input.ioc_db))
                        (add_if (input.cf_requested && is_disabled input.channelfinder) cf_skipped (
                          add_if (is_capped registry) cf_capped_note (
                            add_if (is_failed registry) cf_failed (
                              add_if (ltb 0 missing && not (no_texts input.context_capped))
                                cf_lower_bound
                                (add_if (ltb 0 missing && leb records (missing + missing))
                                  (cf_ratio missing records) [])))))))))))))

  unfoldable pub crossplane_check : CrossPlaneReport
  unfolding sorted sorted_set bucket pvs_of displays_of count_pairs broken_of unregistered_of meet
      linked_write_records notes_of
  crossplane_check = record {
    ioc_prefix = input.prefix;
    ioc_device_name = input.device_name;
    naming = named input.device_name input.naming;
    displays_linked = sorted_set (displays_of linked_row rows);
    pvs_linked = linked_pvs;
    pvs_linked_write = sorted_set (pvs_of written_row rows);
    pvs_other_prefix = other_pvs;
    pvs_indeterminate = residue_pvs;
    pvs_indeterminate_occurrences = count_pairs residue_row rows;
    pvs_dynamic = sorted_set (pvs_of (λ jp. is_dynamic (bucket input.prefix jp)) rows);
    pvs_unresolved = sorted_set (pvs_of (λ jp. is_unresolved (bucket input.prefix jp)) rows);
    pvs_non_channel = non_channel_pvs;
    displays_incomplete = sorted input.context_capped;
    ioc_db_resolved = db_resolved input.ioc_db;
    ioc_db_needs_msi = db_needs_msi input.ioc_db;
    broken = sorted_set broken_of;
    broken_write = sorted_set (meet linked_write_records broken_of);
    cf_unregistered = sorted_set unregistered_of;
    cf_unregistered_write = sorted_set (meet linked_write_records unregistered_of);
    cf_registered = registry_size (asked input.prefix input.channelfinder);
    cf_capped = is_capped (asked input.prefix input.channelfinder);
    notes = notes_of;
  }
