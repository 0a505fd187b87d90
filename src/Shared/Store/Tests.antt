-- ===== src/Shared/Store/Tests.antt =====
-- A run of a save and a load.
use userface.Base.{ℕ, ◌≡◌, arith, List, [], ◌∷◌, ◌++◌, take, true, none, some, if◌then◌else◌}
use userface.Shared.Store.{state_magic, header_bytes, Answers, save_blob, nothing, load_blob}
use userface.Shared.Store.Load.{load_blob-save_blob}

abbrev all_well : Answers
all_well = record {
  opened = true;
  header_written = true;
  data_written = true;
  closed = true;
  renamed = true;
}

abbrev content : List ℕ
content = 1 ∷ 2 ∷ 3 ∷ []

load_blob-save_blob_example :
    let saved = save_blob all_well content none in
    (load_blob 100 saved.1
      ≡ (if saved.0 then record { version = 2; payload = content } else load_blob 100 none))
    × (saved.0 ≡ true)
    × (load_blob 100 (some (header_bytes state_magic 2 3 ++ take 2 content)) ≡ nothing)
load_blob-save_blob_example =
    load_blob-save_blob all_well 100 2 content none (omega arith) (omega arith) (omega arith)
      (omega arith)
