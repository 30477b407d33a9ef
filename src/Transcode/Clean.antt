-- ===== src/Transcode/Clean.antt =====
-- What `clean_cache_tmp` removes at the start of the server.
use homeconnect.DevSync.Options.{listed}
use homeconnect.Manage.{transcode_cams, transcode_name}
use homeconnect.Prelude.{
  Bool-cases, List, [], ap, append_assoc, arith, false, if◌then◌else◌, inl, inr, length,
  length-append, none, refl, true, ◌++◌, ◌∙◌, ◌∷◌, ◌≡◌, ◌≤◌,
}
use homeconnect.Prelude.Containers.{map_get}
use homeconnect.Prelude.Decimal.{show_ℤ}
use homeconnect.Prelude.Int.{ℤ}
use homeconnect.Prelude.Split.{ends_with}
use homeconnect.Prelude.Text.{Text, t, text_eq, text_eq_iff}
use homeconnect.Storage.{Bytes}
use homeconnect.Transcode.{clean_cache_tmp, is_partial, tmp_name}
use mathlib.Core.Path.{subst}

ends_with-append : (p a b : Text) → length p ≤ length b → ends_with p (a ++ b) ≡ ends_with p b
unfolding ends_with
ends_with-append p [] b h = refl
ends_with-append p (c ∷ a) b h = elim (Bool-cases (text_eq p (c ∷ (a ++ b)))) [
  | inr n ↦ ground (arith, n, ends_with-append p a b h)
  | inl y ↦
      let e : p ≡ c ∷ (a ++ b) = (text_eq_iff p (c ∷ (a ++ b))).0 y in
      absurd (omega (arith, ap length e, length-append a b))
]

get-clean :
    (n : Text) (files : List (Text × Bytes))
    → map_get n (clean_cache_tmp files) ≡ (if is_partial n then none else map_get n files)
unfolding map_get clean_cache_tmp
get-clean n [] = ground arith
get-clean n ((name, b) ∷ files) = elim (Bool-cases (text_eq name n)) [
  | inl y ↦
      let e : name ≡ n = (text_eq_iff name n).0 y in
      ground (arith, y, ap is_partial e, get-clean n files)
  | inr m ↦ ground (arith, m, get-clean n files)
]

-- A name is partial exactly when its end is.
partial_end :
    (stem cam : Text)
    → 7 ≤ length (cam ++ t ".ts")
    → is_partial ((stem ++ cam) ++ t ".ts") ≡ is_partial (cam ++ t ".ts")
unfolding is_partial t
partial_end stem cam h = rw (append_assoc stem cam (t ".ts")) (
    ground (
      arith,
      ends_with-append (t ".tmp.ts") stem (cam ++ t ".ts") h,
      ends_with-append (t ".part") stem (cam ++ t ".ts") (omega (arith, h)),
    ))

finished_cam :
    (dongle ts cam : Text) (seg : ℤ)
    → 7 ≤ length (cam ++ t ".ts")
    → is_partial (cam ++ t ".ts") ≡ false
    → is_partial (transcode_name dongle ts seg cam) ≡ false
unfolding transcode_name
finished_cam dongle ts cam seg h k =
    partial_end (dongle ++ b'_' ∷ ts ++ t "--" ++ show_ℤ seg ++ t "--") cam h ∙ k

finished :
    (dongle ts cam : Text) (seg : ℤ)
    → listed (t "audio" ∷ transcode_cams) cam ≡ true
    → is_partial (transcode_name dongle ts seg cam) ≡ false
unfolding is_partial ends_with t text_eq
finished dongle ts cam seg h =
    let of_name : (name : Text)
        → text_eq name cam ≡ true
        → is_partial (transcode_name dongle ts seg name) ≡ false
        → is_partial (transcode_name dongle ts seg cam) ≡ false =
      λ name y k.
        subst (λ c. is_partial (transcode_name dongle ts seg c) ≡ false)
          ((text_eq_iff name cam).0 y) k in
    elim (Bool-cases (text_eq (t "audio") cam)) [
      | inl y ↦ of_name (t "audio") y (finished_cam dongle ts (t "audio") seg (omega arith) refl)
      | inr a ↦ elim (Bool-cases (text_eq (t "fcamera") cam)) [
        | inl y ↦
            of_name (t "fcamera") y (finished_cam dongle ts (t "fcamera") seg (omega arith) refl)
        | inr f ↦ elim (Bool-cases (text_eq (t "dcamera") cam)) [
          | inl y ↦
              of_name (t "dcamera") y (finished_cam dongle ts (t "dcamera") seg (omega arith) refl)
          | inr d ↦ elim (Bool-cases (text_eq (t "ecamera") cam)) [
            | inl y ↦
                of_name (t "ecamera") y
                  (finished_cam dongle ts (t "ecamera") seg (omega arith) refl)
            | inr e ↦ absurd (ground (arith, h, a, f, d, e))
          ]
        ]
      ]
    ]

tmp_end : ends_with (t ".tmp.ts") (t ".tmp.ts") ≡ true
unfolding ends_with t text_eq
tmp_end = refl

partial_tmp : (dongle ts cam : Text) (seg : ℤ) → is_partial (tmp_name dongle ts seg cam) ≡ true
unfolding is_partial tmp_name t
partial_tmp dongle ts cam seg = ground (
  arith,
  ends_with-append (t ".tmp.ts") (dongle ++ b'_' ∷ ts ++ t "--" ++ show_ℤ seg ++ t "--" ++ cam)
      (t ".tmp.ts") (omega arith),
  tmp_end,
)

-- The cleaning at the start of the server removes the temporary files of interrupted runs, for every segment and
-- camera, and keeps the finished transcodes and audio tracks with their contents, and every file that is not named
-- as a partial one.
pub clean_cache_tmp_lem :
    (files : List (Text × Bytes)) (dongle ts cam : Text) (seg : ℤ)
    → listed (t "audio" ∷ transcode_cams) cam ≡ true
    → (map_get (tmp_name dongle ts seg cam) (clean_cache_tmp files) ≡ none)
      × (map_get (transcode_name dongle ts seg cam) (clean_cache_tmp files)
          ≡ map_get (transcode_name dongle ts seg cam) files)
      × ((n : Text)
          → map_get n (clean_cache_tmp files) ≡ (if is_partial n then none else map_get n files))
clean_cache_tmp_lem files dongle ts cam seg h = (
  get-clean (tmp_name dongle ts seg cam) files ∙ rw (partial_tmp dongle ts cam seg) refl,
  get-clean (transcode_name dongle ts seg cam) files ∙ rw (finished dongle ts cam seg h) refl,
  λ n. get-clean n files,
)
