-- ===== src/Transcode/Files.antt =====
-- The cache's files: what the steps of a request do to a file of another name.
use homeconnect.Manage.{transcode_name}
use homeconnect.Prelude.{
  Bool-cases, List, Option, ap, arith, false, inl, inr, length, length-append, none, ok, refl, some,
  ◌++◌, ◌∷◌, ◌≡◌,
}
use homeconnect.Prelude.Containers.{get-insert, map_get, map_insert, map_remove}
use homeconnect.Prelude.Decimal.{show_ℤ}
use homeconnect.Prelude.Int.{ℤ}
use homeconnect.Prelude.Text.{Text, t, text_eq, text_eq_iff, text_eq_refl}
use homeconnect.Storage.{Bytes}
use homeconnect.Transcode.{publish, tmp_name, written}

-- Only the file `tmp` may have changed.
abbrev pub Others : Text → List (Text × Bytes) → List (Text × Bytes) → Type 0
Others tmp files files' = (n : Text) → text_eq tmp n ≡ false → map_get n files' ≡ map_get n files

pub written-Others :
    (tmp : Text) (o : Option Bytes) (files : List (Text × Bytes))
    → Others tmp files (written tmp o files)
unfolding written
written-Others tmp none files n h = refl
written-Others tmp (some b) files n h = ground (arith, get-insert tmp n b files, h)

pub get-written :
    (tmp : Text) (b : Bytes) (files : List (Text × Bytes))
    → map_get tmp (written tmp (some b) files) ≡ some b
unfolding written
get-written tmp b files = ground (arith, get-insert tmp tmp b files, text_eq_refl tmp)

pub tmp-ne-transcode :
    (dongle ts cam : Text) (seg : ℤ)
    → text_eq (tmp_name dongle ts seg cam) (transcode_name dongle ts seg cam) ≡ false
unfolding tmp_name transcode_name t
tmp-ne-transcode dongle ts cam seg =
    let stem : Text = dongle ++ b'_' ∷ ts ++ t "--" ++ show_ℤ seg ++ t "--" ++ cam in
    elim (Bool-cases (text_eq (stem ++ t ".tmp.ts") (stem ++ t ".ts"))) [
      | inr n ↦ n
      | inl y ↦
          let e : stem ++ t ".tmp.ts" ≡ stem ++ t ".ts" =
            (text_eq_iff (stem ++ t ".tmp.ts") (stem ++ t ".ts")).0 y in
          absurd (
            omega
              (arith, ap length e, length-append stem (t ".tmp.ts"), length-append stem (t ".ts")))
    ]

pub publish_found :
    (tmp out : Text) (b : Bytes) (files : List (Text × Bytes))
    → map_get tmp files ≡ some b
    → publish tmp out files ≡ (ok out, map_insert out b (map_remove tmp files))
unfolding publish
publish_found tmp out b files g = rw (g, publish) refl
