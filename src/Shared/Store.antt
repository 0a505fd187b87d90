-- ===== src/Shared/Store.antt =====
-- platform/shared/uf_state_store.hpp: the file that keeps the mixer, as its bytes. A file that does not
-- exist, or cannot be opened, is `none`.
pub mod Load
mod Tests
use userface.Base.{
  ℕ, ◌+◌, ◌*◌, ◌^◌, Bool, true, false, not, ◌&&◌, ◌||◌, List, [], ◌∷◌, ◌++◌, length, take, drop,
  Option, none, some, u32, leb, ◌==◌, if◌then◌else◌, u32_bytes, read_u32,
}

abbrev pub state_magic : ℕ
state_magic = 0x5546_5331

abbrev pub version_cells : ℕ
version_cells = 1

abbrev pub version_model : ℕ
version_model = 2

-- `StateHeader` in memory.
abbrev pub header_bytes : ℕ → ℕ → ℕ → List ℕ
header_bytes magic version bytes =
    u32_bytes magic ++ u32_bytes version ++ u32_bytes bytes ++ u32_bytes 0

-- What the calls of `save_blob` on files answer.
pub record Answers : Type 0 where
  pub opened : Bool
  pub header_written : Bool
  pub data_written : Bool
  pub closed : Bool
  pub renamed : Bool

-- The result, and the file afterwards: the temporary file takes its place only if every call succeeded.
unfoldable pub save_blob : Answers → List ℕ → Option (List ℕ) → Bool × Option (List ℕ)
save_blob a bytes file =
    if a.opened && (a.header_written && a.data_written) && a.closed && a.renamed
    then (true, some (header_bytes state_magic version_model (length bytes) ++ bytes))
    else (false, file)

-- What `load_blob` leaves: the version, and the payload if there is one.
pub record Loaded : Type 0 where
  pub version : ℕ
  pub payload : List ℕ

abbrev pub nothing : Loaded
nothing = record { version = 0; payload = [] }

-- The size of the payload; version 1 counts cells.
unfoldable pub payload_bytes : ℕ → ℕ → ℕ
payload_bytes version bytes = if version == version_cells then u32 (bytes * 4) else bytes

-- `load_blob` with the header read.
unfoldable pub load_payload : ℕ → List ℕ → List ℕ → Loaded
load_payload cap h rest =
    let version = read_u32 h 4 in
    let bytes = payload_bytes version (read_u32 h 8) in
    if (read_u32 h 0 == state_magic)
      && ((version == version_cells) || (version == version_model))
      && not (bytes == 0)
      && leb bytes cap
      && leb bytes (length rest)
    then record { version = version; payload = take bytes rest }
    else nothing

unfoldable pub load_blob : ℕ → Option (List ℕ) → Loaded
load_blob cap none = nothing
load_blob cap (some file) =
    if leb 16 (length file) then load_payload cap (take 16 file) (drop 16 file) else nothing
