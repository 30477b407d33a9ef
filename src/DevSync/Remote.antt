-- ===== src/DevSync/Remote.antt =====
-- The commands that src/devsync.rs runs on the device: removing files, with names in single quotes.
use homeconnect.Db.{Db, Device}
use homeconnect.DevSync.{realdata_dir, remote_path, safe_char, safe_component}
use homeconnect.DevSync.Options.{is_autoprune_enabled}
use homeconnect.Movies.Build.{run}
use homeconnect.Prelude.{
  All, AppResult, Bool, Bool-cases, List, Option, [], all, arith, bad_request, count, err,
  if◌then◌else◌, inl, inr, is_empty, none, not, ok, refl, some, suc, true, ℕ, ◌++◌, ◌==◌, ◌||◌, ◌∷◌,
  ◌≡◌,
}
use homeconnect.Prelude.Decimal.{AllDigits, is_digit, show_ℕ, show_ℕ-AllDigits, show_ℤ}
use homeconnect.Prelude.Int.{negsuc, pos, ℤ}
use homeconnect.Prelude.Split.{split}
use homeconnect.Prelude.Text.{Text, t, trim}
use homeconnect.Settings.{Config}

unfoldable pub delete_paths : Text → List (ℤ × Text) → List Text
unfolding remote_path
delete_paths ts [] = []
delete_paths ts ((seg, name) ∷ files) =
    let rest = delete_paths ts files in
    if safe_component name then remote_path ts seg name ∷ rest else rest

-- format!("[ -e '{p}' ] && rm -f '{p}' && echo '{p}'"), joined with "; " and closed with "; true"
unfoldable pub delete_script : List Text → Text
delete_script [] = t "; true"
delete_script (p ∷ ps) =
    t "[ -e '"
    ++ p
    ++ t "' ] && rm -f '"
    ++ p
    ++ t "' && echo '"
    ++ p
    ++ t "'"
    ++ (if is_empty ps then [] else t "; ")
    ++ delete_script ps

-- out.lines(): for the lines that are not blank, a '\r' at the end of a line makes no difference.
abbrev removed_of : Text → ℕ
removed_of out = count (λ l. not (is_empty (trim l))) (split 10 out)

-- `run` is what `device_ssh::run` answers to a script at the device's address.
unfoldable pub delete_on_device :
    (Text → Text → AppResult Text) → Device → Text → List (ℤ × Text) → AppResult ℕ
unfolding delete_script delete_paths
delete_on_device run device ts files =
    if is_empty device.last_addr
    then err (bad_request (t "device address unknown (not seen online yet)"))
    else if not (safe_component ts)
    then err (bad_request (t "bad route id"))
    else if is_empty (delete_paths ts files)
    then ok 0
    else (elim (run device.last_addr (delete_script (delete_paths ts files))) [
      | err e ↦ err e
      | ok out ↦ ok (removed_of out)
    ])

-- The command of `maybe_prune`, if it sends one.
unfoldable pub maybe_prune : Config → Db → Bool → Text → ℤ → Text → Option Text
unfolding remote_path
maybe_prune config db stored ts seg file =
    if not (is_autoprune_enabled config db) || not stored || not (safe_component file)
    then none
    else some (t "rm -f '" ++ remote_path ts seg file ++ t "'")

-- Only the characters of a plain path: no quote, space or other character that the shell reads.
abbrev pub IsPlainPath : Text → Type 0
IsPlainPath s = all (λ c. safe_char c || c == b'/') s ≡ true

plain-append : (a b : Text) → IsPlainPath a → IsPlainPath b → IsPlainPath (a ++ b)
plain-append [] b h k = k
plain-append (c ∷ a) b h k = ground (arith, plain-append a b (ground arith) k)

plain_safe : (s : Text) → all safe_char s ≡ true → IsPlainPath s
plain_safe [] h = refl
plain_safe (c ∷ s) h = ground (arith, plain_safe s (ground arith))

plain_digits : (s : Text) → AllDigits s → IsPlainPath s
unfolding safe_char is_digit
plain_digits [] h = refl
plain_digits (c ∷ s) h = ground (arith, plain_digits s h.1)

plain_ℤ : (n : ℤ) → IsPlainPath (show_ℤ n)
unfolding show_ℤ safe_char
plain_ℤ (pos n) = plain_digits (show_ℕ n) (show_ℕ-AllDigits n)
plain_ℤ (negsuc n) = plain_digits (show_ℕ (suc n)) (show_ℕ-AllDigits (suc n))

pub plain_remote :
    (ts file : Text) (seg : ℤ)
    → safe_component ts ≡ true
    → safe_component file ≡ true
    → IsPlainPath (remote_path ts seg file)
unfolding remote_path safe_component
plain_remote ts file seg h k =
    plain-append realdata_dir (b'/' ∷ (ts ++ t "--" ++ show_ℤ seg) ++ (b'/' ∷ file)) dir (
      plain-append (b'/' ∷ (ts ++ t "--" ++ show_ℤ seg)) (b'/' ∷ file)
        (slash (ts ++ t "--" ++ show_ℤ seg) (
          plain-append (ts ++ t "--") (show_ℤ seg)
            (plain-append ts (t "--") (plain_safe ts (ground arith)) dashes) (plain_ℤ seg)))
        (slash file (plain_safe file (ground arith))))
  where
    dir : IsPlainPath realdata_dir
    dir = unfold t safe_char in refl

    dashes : IsPlainPath (t "--")
    dashes = unfold t safe_char in refl

    slash : (s : Text) → IsPlainPath s → IsPlainPath (b'/' ∷ s)
    slash s h = unfold safe_char in h

-- The paths that `delete_on_device` puts between single quotes in its script hold only letters,
-- digits, '.', '_', '-' and '/', whatever the file names asked for, if the route's id passes
-- `safe_component`.
pub delete_paths-IsPlainPath :
    (ts : Text) (files : List (ℤ × Text))
    → safe_component ts ≡ true
    → All IsPlainPath (delete_paths ts files)
unfolding delete_paths
delete_paths-IsPlainPath ts [] h = tt
delete_paths-IsPlainPath ts ((seg, name) ∷ files) h = elim (Bool-cases (safe_component name)) [
  | inl y ↦ rw (y, delete_paths) (plain_remote ts name seg h y, delete_paths-IsPlainPath ts files h)
  | inr n ↦ rw (n, delete_paths) (delete_paths-IsPlainPath ts files h)
]
