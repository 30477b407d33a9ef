-- ===== src/Examples/Files.antt =====
-- The theorems on blobs and their ranges, applied to a store with one blob.
use homeconnect.Prelude.{[], arith, some, ◌∷◌, ◌≡◌}
use homeconnect.Serve.{parse_range}
use homeconnect.Serve.Ranges.{closed, from, last, parse_range_lem}
use homeconnect.Storage.{BlobStore}

abbrev blobs : BlobStore
blobs = record { sha256_hex = λ key. 97 ∷ 98 ∷ 99 ∷ 100 ∷ []; root = 47 ∷ []; files = [] }

range_example :
    (parse_range (some (closed 1 2)) 5 ≡ some (1, 2))
    × (parse_range (some (from 1)) 5 ≡ some (1, 4))
    × (parse_range (some (last 2)) 5 ≡ some (3, 4))
range_example = parse_range_lem 1 2 2 5 (ground arith) (ground arith) (ground arith) (ground arith)
