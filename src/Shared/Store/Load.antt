-- ===== src/Shared/Store/Load.antt =====
-- What is loaded of what was saved.
use userface.Base.{
  ℕ, ◌+◌, ◌*◌, ◌/◌, ◌%◌, ◌^◌, ◌≤◌, ◌<◌, ◌≡◌, refl, arith, Bool, true, false, not, ◌&&◌, ◌||◌, List,
  [], ◌∷◌, ◌++◌, length, length-take, take, Option, some, leb, ◌==◌, if◌then◌else◌,
}
use userface.Shared.Store.{
  state_magic, header_bytes, Answers, save_blob, Loaded, nothing, payload_bytes, load_payload,
  load_blob,
}

take_all : (xs : List ℕ) → take (length xs) xs ≡ xs
take_all [] = refl
take_all (x ∷ xs) = rw (take_all xs)

-- The two outcomes of a save.
pick :
    (ok : Bool) (cap : ℕ) (file : List ℕ) (old : Option (List ℕ)) (r : Loaded)
    → load_blob cap (some file) ≡ r
    → let saved : Bool × Option (List ℕ) = if ok then (true, some file) else (false, old) in
      (load_blob cap saved.1 ≡ (if saved.0 then r else load_blob cap old)) × (saved.0 ≡ ok)
pick true cap file old r h = (h, refl)
pick false cap file old r h = (refl, refl)

u32_word :
    (x : ℕ)
    → x < 2 ^ 32
    → x % 256 + x / 256 % 256 * 256 + x / 65536 % 256 * 65536 + x / 16777216 % 256 * 16777216 ≡ x
u32_word x h = omega arith

-- What a file of any header and content loads as.
load-file :
    (cap magic version bytes : ℕ) (content : List ℕ)
    → magic < 2 ^ 32
    → version < 2 ^ 32
    → bytes < 2 ^ 32
    → let size = payload_bytes version bytes in
      load_blob cap (some (header_bytes magic version bytes ++ content)) ≡ (
        if (magic == state_magic)
          && ((version == 1) || (version == 2))
          && not (size == 0)
          && leb size cap
          && leb size (length content)
        then record { version = version; payload = take size content }
        else nothing)
unfolding load_blob load_payload
load-file cap magic version bytes content hm hv hb =
    let long : leb 16 (length (header_bytes magic version bytes ++ content)) ≡ true =
      ground arith in
    rw (long, u32_word magic hm, u32_word version hv, u32_word bytes hb) refl

-- A save that succeeds is loaded again, whole and as version 2, if it is not empty and fits; one that
-- fails at any call leaves what was there. A file cut short anywhere in its content loads as nothing.
pub load_blob-save_blob :
    (a : Answers) (cap n : ℕ) (bytes : List ℕ) (old : Option (List ℕ))
    → 0 < length bytes
    → length bytes < 2 ^ 32
    → length bytes ≤ cap
    → n < length bytes
    → let saved = save_blob a bytes old in
      (load_blob cap saved.1
        ≡ (if saved.0 then record { version = 2; payload = bytes } else load_blob cap old))
      × (saved.0 ≡ (a.opened && (a.header_written && a.data_written) && a.closed && a.renamed))
      × (load_blob cap (some (header_bytes state_magic 2 (length bytes) ++ take n bytes)) ≡ nothing)
unfolding save_blob payload_bytes
load_blob-save_blob a cap n bytes old h0 h1 h2 h3 =
    let whole = load-file cap state_magic 2 (length bytes) bytes (omega arith) (omega arith) h1 in
    let cut =
      load-file cap state_magic 2 (length bytes) (take n bytes) (omega arith) (omega arith) h1 in
    let ok = a.opened && (a.header_written && a.data_written) && a.closed && a.renamed in
    let back : load_blob cap (some (header_bytes state_magic 2 (length bytes) ++ bytes))
        ≡ record { version = 2; payload = bytes } =
      ground (arith, take_all bytes) in
    let p =
      pick ok cap (header_bytes state_magic 2 (length bytes) ++ bytes) old
        (record { version = 2; payload = bytes }) back in
    (p.0, p.1, ground (arith, length-take n bytes))
