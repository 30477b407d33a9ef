-- ===== src/Storage.antt =====
-- src/storage.rs: the blob store on the file system, and the keys. A path is the text of it. SHA-256 in
-- hex is the library's, so it is a field of the store. Input and output are taken to succeed.
pub mod Keys
pub mod Laws
use homeconnect.Prelude.{
  AppResult, Bool, List, Option, [], bad_request, drop, err, if◌then◌else◌, is_some, length, none,
  ok, some, take, ℕ, ◌++◌, ◌==◌, ◌||◌, ◌∷◌,
}
use homeconnect.Prelude.Containers.{map_get, map_insert, map_remove}
use homeconnect.Prelude.Decimal.{show_ℤ}
use homeconnect.Prelude.Int.{ℤ}
use homeconnect.Prelude.Split.{ends_with, rsplit_once, split_once}
use homeconnect.Prelude.Text.{Text, contains, t}

abbrev pub Bytes : Type 0
Bytes = List ℕ

pub record BlobStore : Type 0 where
  pub sha256_hex : Text → Text
  pub root : Text
  pub files : List (Text × Bytes)

unfoldable pub sanitize : Text → Text
sanitize [] = []
sanitize (c ∷ s) = (if c == b'/' || c == 92 || c == 0 then b'_' else c) ∷ sanitize s

unfoldable pub path_for : BlobStore → Text → Text
unfolding sanitize
path_for s key =
    let hex : Text = s.sha256_hex key in
    s.root ++ b'/' ∷ take 2 hex ++ b'/' ∷ take 2 (drop 2 hex) ++ b'/' ∷ sanitize key

-- Path::with_extension("part"): the last `.` of the file name and what follows is replaced, but for a `.` at its start.
unfoldable pub with_part : Text → Text
with_part path = elim (rsplit_once (t ".") path) [
  | none ↦ path ++ t ".part"
  | some (stem, ext) ↦
      if contains (t "/") ext || ends_with (t "/") stem
      then path ++ t ".part"
      else stem ++ t ".part"
]

-- Write to the temporary file, then rename it over the target.
unfoldable pub put : Text → Bytes → BlobStore → BlobStore
unfolding with_part path_for
put key bytes s =
    let path : Text = path_for s key in
    let tmp : Text = with_part path in
    record s { files = map_insert path bytes (map_remove tmp (map_insert tmp bytes s.files)) }

unfoldable pub get : BlobStore → Text → Option Bytes
get s key = map_get (path_for s key) s.files

unfoldable pub exists : BlobStore → Text → Bool
unfolding get
exists s key = is_some (get s key)

unfoldable pub size : BlobStore → Text → Option ℕ
unfolding get
size s key = elim (get s key) [ none ↦ none | some bytes ↦ some (length bytes) ]

unfoldable pub delete : Text → BlobStore → BlobStore
delete key s = record s { files = map_remove (path_for s key) s.files }

unfoldable pub blob_key : Text → Text → ℤ → Text → Text
blob_key dongle timestamp segment file =
    dongle ++ b'_' ∷ timestamp ++ t "--" ++ show_ℤ segment ++ t "--" ++ file

unfoldable pub split_fullname : Text → AppResult (Text × Text)
split_fullname fullname = elim (split_once b'|' fullname) [
  | none ↦ err (bad_request (t "bad route name"))
  | some p ↦ ok p
]

-- format!("{dongle}|{ts}")
unfoldable pub fullname_of : Text → Text → Text
fullname_of dongle ts = dongle ++ b'|' ∷ ts

-- format!("{dongle}|{ts}--{seg}")
unfoldable pub canonical_of : Text → Text → ℤ → Text
canonical_of dongle ts seg = dongle ++ b'|' ∷ ts ++ t "--" ++ show_ℤ seg
