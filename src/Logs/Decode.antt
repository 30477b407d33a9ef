-- ===== src/Logs/Decode.antt =====
-- src/parse.rs: decompression, the artifacts of a segment, and the thumbnails' strip. The decoders, the
-- JSON printer and the image library are fields of a record.
use homeconnect.Logs.{Coord, DriveEvent, Telem, Which}
use homeconnect.Logs.Accumulate.{Accum}
use homeconnect.Prelude.{
  AppResult, Bool, List, Option, [], bad_request, err, if◌then◌else◌, is_empty, length, none, ok,
  some, ℕ, ◌%◌, ◌*◌, ◌++◌, ◌+◌, ◌==◌, ◌∷◌,
}
use homeconnect.Prelude.Floats.{Floats}
use homeconnect.Prelude.Int.{ℤ}
use homeconnect.Prelude.Split.{ends_with}
use homeconnect.Prelude.Text.{Text, t}
use homeconnect.Storage.{BlobStore, Bytes, blob_key, put}

-- The reads of a decoder, one chunk each: an empty chunk is Ok(0), `none` is an error.
abbrev pub Reads : Type 0
Reads = List (Option Bytes)

unfoldable pub read_tolerant : Reads → Bytes
read_tolerant [] = []
read_tolerant (none ∷ rs) = []
read_tolerant (some [] ∷ rs) = []
read_tolerant (some (b ∷ bs) ∷ rs) = (b ∷ bs) ++ read_tolerant rs

-- The image library: an image is resized and copied to an offset of a canvas, if it fits.
pub record Images : Type 1 where
  pub Canvas : Type 0
  pub Image : Type 0
  pub new : ℕ → ℕ → Canvas
  pub load_from_memory : Bytes → Option Image
  pub paste_resized : Image → ℕ → ℕ → ℕ → Canvas → Canvas
  pub encode_jpeg : ℕ → Canvas → Option Bytes

abbrev pub tw : ℕ
tw = 128

abbrev pub th : ℕ
th = 80

-- u32 arithmetic
abbrev pub u32_mod : ℕ
u32_mod = 4294967296

module _ (im : Images) where
  paste_all : ℕ → List Bytes → im.Canvas → im.Canvas
  paste_all i [] canvas = canvas
  paste_all i (bytes ∷ thumbs) canvas = paste_all (i + 1) thumbs (elim (im.load_from_memory bytes) [
    | none ↦ canvas
    | some img ↦ im.paste_resized img tw th (i * tw % u32_mod) canvas
  ])

  unfoldable pub build_sprite : List Bytes → Option Bytes
  unfolding paste_all
  build_sprite thumbs =
      let n : ℕ = length thumbs % u32_mod in
      if n == 0 then none else im.encode_jpeg 80 (paste_all 0 thumbs (im.new (tw * n % u32_mod) th))

module _ (fl : Floats) where
  -- `messages` are those that capnp reads, with a known variant, and their mono times.
  pub record Decoders : Type 1 where
    pub bz2 : Bytes → Reads
    pub zstd : Bytes → Option Reads
    pub messages : Bytes → List (Which fl × ℕ)
    pub coords_json : List (Coord fl) → Bytes
    pub events_json : List DriveEvent → Bytes
    pub telemetry_json : List (Telem fl) → Bytes
    pub images : Images

  module _ (lib : Decoders) where
    unfoldable pub decompress : Text → Bytes → AppResult Bytes
    unfolding read_tolerant
    decompress file raw =
        if ends_with (t ".bz2") file
        then ok (read_tolerant (lib.bz2 raw))
        else if ends_with (t ".zst") file
        then elim (lib.zstd raw) [
          | none ↦ err (bad_request (t "zst init"))
          | some reads ↦ ok (read_tolerant reads)
        ]
        else ok raw

    put_sprite : Text → Option Bytes → BlobStore → BlobStore
    put_sprite key none blobs = blobs
    put_sprite key (some sprite) blobs = put key sprite blobs

    put_some : Bool → Text → Bytes → BlobStore → BlobStore
    put_some absent key bytes blobs = if absent then blobs else put key bytes blobs

    -- The artifacts of parse_and_store: each is written if there is something in it.
    unfoldable pub write_artifacts : Text → Text → ℤ → Accum fl → BlobStore → BlobStore
    unfolding put_sprite put_some
    write_artifacts dongle ts seg acc blobs =
        let b1 : BlobStore =
          put_some (is_empty acc.coords) (blob_key dongle ts seg (t "coords.json"))
            (lib.coords_json acc.coords) blobs in
        let b2 : BlobStore =
          put_some (is_empty acc.events) (blob_key dongle ts seg (t "events.json"))
            (lib.events_json acc.events) b1 in
        let b3 : BlobStore =
          put_some (is_empty acc.telemetry) (blob_key dongle ts seg (t "telemetry.json"))
            (lib.telemetry_json acc.telemetry) b2 in
        if is_empty acc.thumbnails
        then b3
        else put_sprite (blob_key dongle ts seg (t "sprite.jpg"))
            (build_sprite lib.images acc.thumbnails) b3
