-- ===== src/LogWrites/Updates.antt =====
-- How an update of an entry ends.
use epics_mcp_server.Prelude.{ℕ, String, ◌≡◌, refl, ◌↔◌, ◌⊎◌, not, some, List, [], ◌++◌, arith}
use epics_mcp_server.Prelude.Texts.{Text, codes, Among}
use epics_mcp_server.Prelude.Sorted.{sorted_set, Among-sorted_set, Among-append}
use epics_mcp_server.Faults.{returned}
use epics_mcp_server.Olog.{audit_write, audit_write_failed}
use epics_mcp_server.Json.{Fields, get}
use epics_mcp_server.Entry.{names, unroundtrippable_attachment_filenames}
use epics_mcp_server.LogClient.{
  Request, post_multipart, log_entry, LogJson, Edit, or_else, no_texts, logbook_names, tag_names,
}
use epics_mcp_server.LogClient.Overlay.{IsOverlaid, update_request-IsOverlaid}
use epics_mcp_server.LogListing.{raw_entry_of}
use epics_mcp_server.LogWrites.{Env, World, refuse_when}
use epics_mcp_server.LogWrites.Protocol.{IsEnd, quiet-IsEnd, granted-IsEnd}
use epics_mcp_server.LogWrites.Settle.{IsSettled-after, write_entry-IsSettled}
use epics_mcp_server.LogWrites.Quiet.{
  early-IsQuiet, logbooks-IsQuiet, level-IsQuiet, names-IsQuiet, refuse-IsQuiet, read_entry-IsQuiet,
  read_entry_found,
}
use epics_mcp_server.LogWrites.Operations.{
  reject_unknown_level, update_run, read_entry, known_names,
}

module _ (env : Env) (now : ℕ) (caller : String) where
  abbrev current : Fields → List Text
  current raw = names env.py (get (codes "logbooks") raw)

  -- The request of an update submits the entry that was read with the edit overlaid, and the gate granted
  -- the logbooks that the entry is in and those that it will be in.
  abbrev pub Updates : Text → Edit → List Text → Request → Type 0
  Updates log_id edit ls q =
      (raw : Fields) × (j : LogJson) × (raw_entry_of (env.server.read (log_entry log_id))
        ≡ returned (some raw))
      × ((x : Text)
          → Among x ls ↔ (Among x (current raw) ⊎ Among x (or_else edit.logbooks (current raw))))
      × (q ≡ post_multipart j [])
      × IsOverlaid env.py raw edit j

  covers : (a b : List Text) (x : Text) → Among x (sorted_set (a ++ b)) ↔ (Among x a ⊎ Among x b)
  covers a b x = ground (arith, Among-sorted_set x (a ++ b), Among-append x a b)

  pub update_run-IsEnd :
      (log_id : Text) (edit : Edit) (w : World)
      → IsEnd now env.urls caller
          (Updates log_id edit)
          w.gate
          w.sent
          (update_run env now caller log_id edit w)
  unfolding update_run audit_write audit_write_failed
  update_run-IsEnd log_id edit w =
      let Fits = Updates log_id edit in
      let g = w.gate in
      let s = w.sent in
      quiet-IsEnd now env.urls caller Fits g s _ _
        (early-IsQuiet now env.urls caller g s w refl refl)
        (λ t w1 e1 q q'.
          quiet-IsEnd now env.urls caller Fits g s (read_entry env log_id w1) _
            (read_entry-IsQuiet now env g s log_id w1 q q')
            (λ raw w2 e2 r r'.
              let old = names env.py (get (codes "logbooks") raw) in
              let new = or_else edit.logbooks old in
              let ls = sorted_set (old ++ new) in
              quiet-IsEnd now env.urls caller Fits g s
                (refuse_when (not (no_texts (unroundtrippable_attachment_filenames env.py raw))) w2)
                _ (refuse-IsQuiet now env g s _ w2 r r')
                (λ t3 w3 e3 a a'.
                  quiet-IsEnd now env.urls caller Fits g s (refuse_when (no_texts new) w3) _
                    (refuse-IsQuiet now env g s (no_texts new) w3 a a')
                    (λ t4 w4 e4 b b'.
                      quiet-IsEnd now env.urls caller Fits g s _ _
                        (logbooks-IsQuiet now env.urls caller ls g s w4 b b')
                        (λ t5 w5 e5 c c'.
                          quiet-IsEnd now env.urls caller Fits g s
                            (known_names env logbook_names edit.logbooks w5) _
                            (names-IsQuiet now env g s logbook_names edit.logbooks w5 c c')
                            (λ t6 w6 e6 d d'.
                              quiet-IsEnd now env.urls caller Fits g s
                                (known_names env tag_names edit.tags w6) _
                                (names-IsQuiet now env g s tag_names edit.tags w6 d d')
                                (λ t7 w7 e7 f f'.
                                  quiet-IsEnd now env.urls caller Fits g s
                                    (reject_unknown_level env edit.level w7) _
                                    (level-IsQuiet now env g s edit.level w7 f f')
                                    (λ t8 w8 e8 z z'.
                                      granted-IsEnd now env.urls caller Fits g s w8 ls 0 _ z z'
                                        (λ g' kept. IsSettled-after now Fits ls g' _ _ _ (
                                          write_entry-IsSettled now Fits ls env.py env.server
                                            (record w8 { gate = g' }) _ _ _ (λ code. (refl, refl))
                                            (λ entry. refl)
                                            (λ q e.
                                              let (j, made, overlaid) =
                                                update_request-IsOverlaid env.py raw edit q e in
                                              (
                                                raw,
                                                j,
                                                read_entry_found env log_id w1 w2 raw e2,
                                                covers old new,
                                                made,
                                                overlaid,
                                              ))))))))))))
