-- ===== src/Storage/Laws.antt =====
-- What a read returns after a write or a deletion.
use homeconnect.Prelude.{arith, false, length, some, ◌≡◌, ◌≢◌}
use homeconnect.Prelude.Containers.{get-insert, get-remove}
use homeconnect.Prelude.Text.{Text, text_eq_iff, text_eq_refl}
use homeconnect.Storage.{BlobStore, Bytes, delete, exists, get, path_for, put, size, with_part}

-- A blob that was put is read back, with its size; a key of another path reads what it read before,
-- unless that path is the temporary file of the write.
pub get-put :
    (s : BlobStore) (k j : Text) (bytes : Bytes)
    → (get (put k bytes s) k ≡ some bytes)
      × (size (put k bytes s) k ≡ some (length bytes))
      × (path_for s j ≢ path_for s k
          → path_for s j ≢ with_part (path_for s k)
          → get (put k bytes s) j ≡ get s j)
unfolding get put size path_for
get-put s k j bytes = (self, ground (arith, self), λ n m. other n m)
  where
    self : get (put k bytes s) k ≡ some bytes
    self = simp get-insert (ground (arith, text_eq_refl (path_for s k)))

    other :
        path_for s j ≢ path_for s k
        → path_for s j ≢ with_part (path_for s k)
        → get (put k bytes s) j ≡ get s j
    other n m =
        simp (get-insert, get-remove)
          (ground (
            arith,
            text_eq_iff (path_for s k) (path_for s j),
            text_eq_iff (with_part (path_for s k)) (path_for s j),
          ))

-- A deleted blob is gone, and keys of other paths are not touched.
pub get-delete :
    (s : BlobStore) (k j : Text)
    → (exists (delete k s) k ≡ false) × (path_for s j ≢ path_for s k → get (delete k s) j ≡ get s j)
unfolding get delete exists path_for
get-delete s k j = (
  simp get-remove (ground (arith, text_eq_refl (path_for s k))),
  λ n. simp get-remove (ground (arith, text_eq_iff (path_for s k) (path_for s j))),
)
