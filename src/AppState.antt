-- ===== src/AppState.antt =====
-- src/state.rs: what the handlers share. The transcode cache is the list of its files' names.
use homeconnect.Db.{Db}
use homeconnect.Prelude.{List}
use homeconnect.Prelude.Text.{Text}
use homeconnect.Storage.{BlobStore}

pub record AppState : Type 0 where
  pub db : Db
  pub blobs : BlobStore
  pub transcodes : List Text
