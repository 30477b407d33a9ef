-- ===== src/Serve.antt =====
-- src/serve.rs: blobs over HTTP with Range support. A header's value is its text, `none` when it is
-- absent or not text; a file is its bytes, `none` when it cannot be opened. The release build wraps
-- u64 subtraction, so it is modulo 2^64.
pub mod Ranges
pub mod Files
pub mod Media
use homeconnect.Access.{Auth, check_route_access}
use homeconnect.Db.{Db}
use homeconnect.Prelude.{
  AppResult, Option, [], drop, err, if◌then◌else◌, leb, length, ltb, min, none, not_found, ok, some,
  take, ℕ, ◌%◌, ◌++◌, ◌+◌, ◌-◌, ◌||◌, ◌∷◌,
}
use homeconnect.Prelude.Decimal.{parse_u64, show_ℕ, u64_mod}
use homeconnect.Prelude.Int.{ℤ}
use homeconnect.Prelude.Split.{ends_with, split_once}
use homeconnect.Prelude.Text.{Text, contains, strip_prefix, t, to_ascii_lowercase, trim}
use homeconnect.Storage.{BlobStore, Bytes, blob_key, fullname_of, get}

unfoldable pub content_type : Text → Text
content_type file =
    let lower : Text = to_ascii_lowercase file in
    if ends_with (t ".ts") lower
    then t "video/mp2t"
    else if ends_with (t ".m3u8") lower
    then t "application/vnd.apple.mpegurl"
    else if ends_with (t ".mp4") lower || ends_with (t ".m4s") lower
    then t "video/mp4"
    else if ends_with (t ".hevc") lower
    then t "video/h265"
    else if ends_with (t ".json") lower
    then t "application/json"
    else if ends_with (t ".jpg") lower || ends_with (t ".jpeg") lower
    then t "image/jpeg"
    else if ends_with (t ".bz2") lower
    then t "application/x-bzip2"
    else if ends_with (t ".zst") lower
    then t "application/zstd"
    else t "application/octet-stream"

-- a - b of u64
abbrev pub sub_u64 : ℕ → ℕ → ℕ
sub_u64 a b = (a + u64_mod - b) % u64_mod

abbrev pub pair_of : Option ℕ → (ℕ → ℕ × ℕ) → Option (ℕ × ℕ)
pair_of none f = none
pair_of (some n) f = some (f n)

-- The `match (s.trim(), e.trim())`.
unfoldable pub bounds_of : Text → Text → ℕ → Option (ℕ × ℕ)
bounds_of [] [] len = none
bounds_of [] (c ∷ suffix) len =
    pair_of (parse_u64 (c ∷ suffix)) (λ n. (sub_u64 len (min n len), sub_u64 len 1))
bounds_of (c ∷ start) [] len = pair_of (parse_u64 (c ∷ start)) (λ s. (s, sub_u64 len 1))
bounds_of (c ∷ start) (d ∷ end) len = elim (parse_u64 (c ∷ start)) [
  | none ↦ none
  | some s ↦ pair_of (parse_u64 (d ∷ end)) (λ e. (s, min e (sub_u64 len 1)))
]

unfoldable pub checked : ℕ → Option (ℕ × ℕ) → Option (ℕ × ℕ)
checked len none = none
checked len (some (start, end)) = if ltb end start || leb len start then none else some (start, end)

-- The header without its unit, and the two sides of the first '-'.
unfoldable pub range_spec : Option Text → Option (Text × Text)
range_spec none = none
range_spec (some raw) = elim (strip_prefix (t "bytes=") raw) [
  | none ↦ none
  | some spec ↦ if contains (t ",") spec then none else split_once b'-' spec
]

unfoldable pub parse_range : Option Text → ℕ → Option (ℕ × ℕ)
unfolding bounds_of checked range_spec
parse_range header len = elim (range_spec header) [
  | none ↦ none
  | some (s, e) ↦ checked len (bounds_of (trim s) (trim e) len)
]

pub record Response : Type 0 where
  pub status : ℕ
  pub content_type : Text
  pub content_range : Option Text
  pub content_length : ℕ
  pub body : Bytes

whole : Text → Bytes → Response
whole ct bytes = record {
  status = 200;
  content_type = ct;
  content_range = none;
  content_length = length bytes;
  body = bytes;
}

partial : Text → Bytes → ℕ → ℕ → Response
partial ct bytes start end =
    let chunk : ℕ = end - start + 1 in
    record {
      status = 206;
      content_type = ct;
      content_range =
          some
            (t "bytes " ++ show_ℕ start ++ t "-" ++ show_ℕ end ++ t "/" ++ show_ℕ (length bytes));
      content_length = chunk;
      body = take chunk (drop start bytes);
    }

unfoldable pub serve_file : Option Bytes → Text → Option Text → AppResult Response
unfolding whole partial
serve_file none ct range = err (not_found (t "file not found"))
serve_file (some bytes) ct range = elim (parse_range range (length bytes)) [
  | none ↦ ok (whole ct bytes)
  | some (start, end) ↦ ok (partial ct bytes start end)
]

-- GET /connectdata/…: access first, then the file.
unfoldable pub serve_blob :
    Db → BlobStore → Text → Text → ℤ → Text → Option Auth → Option Text → AppResult Response
serve_blob db blobs dongle timestamp segment file auth range =
    elim (check_route_access db (fullname_of dongle timestamp) dongle auth) [
      | err e ↦ err e
      | ok _ ↦
          serve_file (get blobs (blob_key dongle timestamp segment file)) (content_type file) range
    ]
