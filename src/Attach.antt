-- ===== src/Attach.antt =====
-- services/olog_attachments.py: the planning of an upload by the sizes of its files, and the reading
-- of the files within the same budget. What the files hold, when they are sized and when they are
-- read, is the parameter `Disk`; the ids are a stream.
pub mod Budget
use epics_mcp_server.Prelude.{
  ℕ, zero, suc, ◌+◌, ◌-◌, Option, none, some, List, [], ◌∷◌, ◌++◌, ltb, if◌then◌else◌, length,
}
use epics_mcp_server.Prelude.Texts.{Text, codes, is_empty}
use epics_mcp_server.Errors.{EpicsError, epics, Result, ok, err}
use epics_mcp_server.Faults.{
  Fault, epics_fault, internal, Attempt, raised, returned, lift, ◌>>=◌, ◌>>◌, raise_if,
}
use epics_mcp_server.Paths.{FileSystem, file, resolve_user_path}

pub record Disk (fs : FileSystem) : Type 0 where
  -- `path.stat().st_size`; `none` for an OSError
  pub size : fs.FilePath → Option ℕ
  -- all the bytes of the file when it is read; `none` for an OSError
  pub content : fs.FilePath → Option (List ℕ)
  -- `mimetypes.guess_type(name)[0]`
  pub mime : Text → Option Text
  -- `base64.b64decode(value, validate=True)`; `none` where it is not valid
  pub decode : Text → Option (List ℕ)

-- Where the bytes of an attachment come from.
pub data Source (fs : FileSystem) : Type 0 where
  path : fs.FilePath → Source fs
  inline_bytes : List ℕ → Source fs

-- `_Spec`
pub record Spec (fs : FileSystem) : Type 0 where
  pub id : Text
  pub filename : Text
  pub content_type : Option Text
  pub source : Source fs

pub record AttachmentPlan (fs : FileSystem) : Type 0 where
  pub specs : List (Spec fs)
  pub inline_markup : Text
  pub total_bytes : ℕ

pub record AttachmentUpload : Type 0 where
  pub id : Text
  pub filename : Text
  pub content : List ℕ
  pub content_type : Option Text

abbrev pub take {ℓ} : {A : Type ℓ} → ℕ → List A → List A
take zero xs = []
take (suc n) [] = []
take (suc n) (x ∷ xs) = x ∷ take n xs

abbrev pub or_internal {ℓ} : {A : Type ℓ} → Option A → Attempt A
or_internal none = raised internal
or_internal (some a) = returned a

-- `f.read(remaining + 1)` of a file's content, if it can be read
abbrev pub capped : ℕ → Option (List ℕ) → Attempt (List ℕ)
capped remaining none = raised internal
capped remaining (some bytes) = returned (take (suc remaining) bytes)

module _ (fs : FileSystem) (disk : Disk fs) (ids : ℕ → Text) (roots_text : Text) where
  abbrev file_spec : Text → fs.FilePath → Spec fs
  file_spec uid p = record {
    id = uid;
    filename = uid ++ codes "_" ++ fs.name p;
    content_type = disk.mime (fs.name p);
    source = path p;
  }

  abbrev planned : List (Spec fs) → ℕ → AttachmentPlan fs
  planned specs total = record { specs = specs; inline_markup = []; total_bytes = total }

  abbrev with_file : Spec fs → ℕ → AttachmentPlan fs → AttachmentPlan fs
  with_file spec size plan = record {
    specs = spec ∷ plan.specs;
    inline_markup = plan.inline_markup;
    total_bytes = size + plan.total_bytes;
  }

  abbrev inline_plan : Text → List ℕ → AttachmentPlan fs
  inline_plan uid bytes = record {
    specs =
        record {
          id = uid;
          filename = uid ++ codes ".png";
          content_type = some (codes "image/png");
          source = inline_bytes bytes;
        }
        ∷ [];
    inline_markup = b'\n' ∷ b'\n' ∷ codes "![](attachment/" ++ uid ++ codes ")";
    total_bytes = length bytes;
  }

  abbrev decoded : ℕ → Option (List ℕ) → Attempt (AttachmentPlan fs)
  decoded k none = raised (epics_fault (epics "INVALID_INPUT"))
  decoded k (some bytes) = returned (inline_plan (ids k) bytes)

  -- `if embed_image_base64:`
  abbrev plan_inline : ℕ → Option Text → Attempt (AttachmentPlan fs)
  plan_inline k none = returned (planned [] 0)
  plan_inline k (some value) =
      if is_empty value then returned (planned [] 0) else decoded k (disk.decode value)

  -- `plan_attachments`, from the id that is minted next.
  unfoldable pub plan_attachments : ℕ → List Text → Option Text → Attempt (AttachmentPlan fs)
  unfolding resolve_user_path
  plan_attachments k [] embed = plan_inline k embed
  plan_attachments k (raw ∷ raws) embed = do
    p ← lift (resolve_user_path fs roots_text raw file)
    size ← or_internal (disk.size p)
    plan ← plan_attachments (suc k) raws embed
    returned (with_file (file_spec (ids k) p) size plan)

abbrev pub upload_of : (fs : FileSystem) → Spec fs → List ℕ → AttachmentUpload
upload_of fs spec bytes = record {
  id = spec.id;
  filename = spec.filename;
  content = bytes;
  content_type = spec.content_type;
}

module _ (fs : FileSystem) (disk : Disk fs) where
  abbrev pub source_bytes : Source fs → ℕ → Attempt (List ℕ)
  source_bytes (inline_bytes bytes) remaining = returned bytes
  source_bytes (path p) remaining = capped remaining (disk.content p)

  -- `read_uploads`; what remains of the budget is never below 0, since a larger content is refused.
  unfoldable pub read_uploads : List (Spec fs) → ℕ → Attempt (List AttachmentUpload)
  read_uploads [] remaining = returned []
  read_uploads (spec ∷ specs) remaining = do
    bytes ← source_bytes spec.source remaining
    raise_if (ltb remaining (length bytes)) (epics_fault (epics "OLOG_ATTACH_TOO_LARGE_AT_READ"))
    uploads ← read_uploads specs (remaining - length bytes)
    returned (upload_of fs spec bytes ∷ uploads)
