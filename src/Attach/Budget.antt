-- ===== src/Attach/Budget.antt =====
-- Reading within the budget against reading everything.
use epics_mcp_server.Prelude.{
  ℕ, zero, suc, ◌+◌, ◌-◌, ◌≤◌, ◌<◌, ◌≡◌, refl, ap, ◌↔◌, inl, inr, true, Option, none, some, List,
  [], ◌∷◌, arith, ltb, Bool-cases, length,
}
use epics_mcp_server.Faults.{Attempt, raised, returned, ◌>>=◌, ◌>>◌, raise_if, epics_fault, Fault}
use epics_mcp_server.Errors.{epics}
use epics_mcp_server.Paths.{FileSystem}
use epics_mcp_server.Attach.{
  Disk, Source, path, inline_bytes, Spec, AttachmentUpload, take, capped, read_uploads,
  source_bytes, upload_of, or_internal, capped,
}

raised-ne-returned {ℓ} : {A : Type ℓ} {f : Fault} {a : A} → raised f ≡ returned a → ⊥
raised-ne-returned h = cc

take_short {ℓ} : {A : Type ℓ} (n : ℕ) (xs : List A) → length xs ≤ n → take n xs ≡ xs
take_short zero [] h = refl
take_short zero (x ∷ xs) h = absurd (omega arith)
take_short (suc n) [] h = refl
take_short (suc n) (x ∷ xs) h = ap (λ (l : List _). x ∷ l) (take_short n xs (omega arith))

length-take {ℓ} : {A : Type ℓ} (n : ℕ) (xs : List A) → n < length xs → length (take n xs) ≡ n
length-take zero xs h = refl
length-take (suc n) [] h = absurd (omega arith)
length-take (suc n) (x ∷ xs) h = omega (arith, length-take n xs (omega arith))

module _ (fs : FileSystem) (disk : Disk fs) where
  -- The reference: every source whole, with no budget.
  abbrev whole_bytes : Source fs → Attempt (List ℕ)
  whole_bytes (inline_bytes bytes) = returned bytes
  whole_bytes (path p) = or_internal (disk.content p)

  unfoldable pub read_whole : List (Spec fs) → Attempt (List AttachmentUpload)
  read_whole [] = returned []
  read_whole (spec ∷ specs) = do
    bytes ← whole_bytes spec.source
    uploads ← read_whole specs
    returned (upload_of fs spec bytes ∷ uploads)

abbrev pub total_size : List AttachmentUpload → ℕ
total_size [] = 0
total_size (u ∷ us) = length u.content + total_size us

total_cons :
    (u : AttachmentUpload) (us : List AttachmentUpload) (n : ℕ)
    → total_size (u ∷ us) ≤ n
    → length u.content ≤ n
total_cons u us n h = omega arith

-- One file in front of the others, once its content is known.
add_upload :
    (u : AttachmentUpload) (remaining : ℕ) (e : Fault)
    (read whole : Attempt (List AttachmentUpload))
    → ((us : List AttachmentUpload)
        → (read ≡ returned us)
          ↔ ((whole ≡ returned us) × (total_size us ≤ remaining - length u.content)))
    → (us : List AttachmentUpload)
    → ((raise_if (ltb remaining (length u.content)) e >> (read >>= λ rest. returned (u ∷ rest)))
        ≡ returned us)
      ↔ (((whole >>= λ rest. returned (u ∷ rest)) ≡ returned us) × (total_size us ≤ remaining))
add_upload u remaining e (raised f) (raised g) ih us = ground arith
add_upload u remaining e (returned r) (raised g) ih us =
    absurd (raised-ne-returned ((ih r).0 refl).0)
add_upload u remaining e (raised f) (returned w) ih us = ground (arith, ih w)
add_upload u remaining e (returned r) (returned w) ih us = ground (arith, ih w, ih r)

take_long {ℓ} :
    {A : Type ℓ} (n : ℕ) (xs : List A) → n < length xs → ltb n (length (take (suc n) xs)) ≡ true
take_long n xs h = ground (arith, length-take (suc n) xs, take_short (suc n) xs)

module _ (fs : FileSystem) (spec : Spec fs) where
  -- A content against its capped read, with what follows for each.
  add_capped :
      (content : Option (List ℕ)) (remaining : ℕ) (e : Fault)
      (read : ℕ → Attempt (List AttachmentUpload)) (whole : Attempt (List AttachmentUpload))
      → ((n : ℕ) (us : List AttachmentUpload)
          → (read n ≡ returned us) ↔ ((whole ≡ returned us) × (total_size us ≤ n)))
      → (us : List AttachmentUpload)
      → ((capped remaining content >>= λ b.
            raise_if (ltb remaining (length b)) e
            >> (read (remaining - length b) >>= λ rest. returned (upload_of fs spec b ∷ rest)))
          ≡ returned us)
        ↔ (((or_internal content >>= λ b. whole >>= λ rest. returned (upload_of fs spec b ∷ rest))
              ≡ returned us)
            × (total_size us ≤ remaining))
  add_capped none remaining e read whole ih us = (λ h. cc, λ h. absurd (raised-ne-returned h.0))
  add_capped (some b) remaining e read whole ih us = elim (Bool-cases (ltb remaining (length b))) [
    | inl long ↦ too_long whole (ground arith)
    | inr short ↦ rw (take_short (suc remaining) b (ground arith)) (
        add_upload (upload_of fs spec b) remaining e (read (remaining - length b)) whole
          (ih (remaining - length b)) us)
  ]
    where
      too_long :
          (w : Attempt (List AttachmentUpload))
          → remaining < length b
          → ((raise_if (ltb remaining (length (take (suc remaining) b))) e
                >> (read (remaining - length (take (suc remaining) b)) >>= λ rest.
                    returned (upload_of fs spec (take (suc remaining) b) ∷ rest)))
              ≡ returned us)
            ↔ (((w >>= λ rest. returned (upload_of fs spec b ∷ rest)) ≡ returned us)
                × (total_size us ≤ remaining))
      too_long (raised f) long =
          rw (take_long remaining b long) (λ h. cc, λ h. absurd (raised-ne-returned h.0))
      too_long (returned w) long =
          rw (take_long remaining b long) (λ h. cc, λ h. absurd (ground arith))

module _ (fs : FileSystem) (disk : Disk fs) where
  -- Reading within the budget gives these uploads exactly if reading everything does and they are no
  -- larger than the budget in total.
  pub read_uploads_iff :
      (specs : List (Spec fs)) (remaining : ℕ) (us : List AttachmentUpload)
      → (read_uploads fs disk specs remaining ≡ returned us)
        ↔ ((read_whole fs disk specs ≡ returned us) × (total_size us ≤ remaining))
  unfolding read_uploads read_whole
  read_uploads_iff [] remaining us = ground arith
  read_uploads_iff (spec ∷ specs) remaining us = by_source (read_uploads_iff specs) spec.source
    where
      by_source :
          ((n : ℕ) (us : List AttachmentUpload)
            → (read_uploads fs disk specs n ≡ returned us)
              ↔ ((read_whole fs disk specs ≡ returned us) × (total_size us ≤ n)))
          → (source : Source fs)
          → ((source_bytes fs disk source remaining >>= λ b.
                raise_if
                  (ltb remaining (length b))
                  (epics_fault (epics "OLOG_ATTACH_TOO_LARGE_AT_READ"))
                >> (read_uploads fs disk specs (remaining - length b) >>= λ rest.
                    returned (upload_of fs spec b ∷ rest)))
              ≡ returned us)
            ↔ (((whole_bytes fs disk source >>= λ b.
                    read_whole fs disk specs >>= λ rest. returned (upload_of fs spec b ∷ rest))
                  ≡ returned us)
                × (total_size us ≤ remaining))
      by_source ih (inline_bytes b) =
          add_upload (upload_of fs spec b) remaining _
            (read_uploads fs disk specs (remaining - length b)) (read_whole fs disk specs)
            (ih (remaining - length b)) us
      by_source ih (path p) =
          add_capped fs spec (disk.content p) remaining _ (read_uploads fs disk specs)
            (read_whole fs disk specs) ih us
