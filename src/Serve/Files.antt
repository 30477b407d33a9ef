-- ===== src/Serve/Files.antt =====
-- The responses of `serve_file` and `serve_blob`.
use homeconnect.Prelude.{
  Option, arith, drop, err, length, length-drop, length-take, none, not_found, ok, refl, some, take,
  ℕ, ◌++◌, ◌+◌, ◌-◌, ◌<◌, ◌≡◌, ◌≤◌,
}
use homeconnect.Prelude.Decimal.{show_ℕ, u64_mod}
use homeconnect.Prelude.Text.{Text, t}
use homeconnect.Serve.{Response, parse_range, serve_file}
use homeconnect.Serve.Ranges.{parse_range_bounds}
use homeconnect.Storage.{Bytes}

length_slice :
    (bytes : Bytes) (s e : ℕ)
    → s ≤ e
    → e < length bytes
    → length (take (e - s + 1) (drop s bytes)) ≡ e - s + 1
length_slice bytes s e h k =
    omega (arith, length-take (e - s + 1) (drop s bytes), length-drop s bytes)

-- A served file carries a Content-Length that is the length of its body. Without an accepted range it is
-- 200 with the whole file; with the range (s, e) it is 206 with the e - s + 1 bytes from s on, and the
-- range and the file's length in Content-Range. A file that cannot be opened is NotFound.
pub serve_file_lem :
    (bytes : Bytes) (ct : Text) (range : Option Text)
    → length bytes < u64_mod
    → (serve_file none ct range ≡ err (not_found (t "file not found")))
      × ((r : Response)
          → serve_file (some bytes) ct range ≡ ok r
          → r.content_length ≡ length r.body)
      × (parse_range range (length bytes) ≡ none
          → serve_file (some bytes) ct range
            ≡ ok (record {
              status = 200;
              content_type = ct;
              content_range = none;
              content_length = length bytes;
              body = bytes;
            }))
      × ((s e : ℕ)
          → parse_range range (length bytes) ≡ some (s, e)
          → serve_file (some bytes) ct range
            ≡ ok (record {
              status = 206;
              content_type = ct;
              content_range =
                  some
                    (t "bytes " ++ show_ℕ s ++ t "-" ++ show_ℕ e ++ t "/" ++ show_ℕ (length bytes));
              content_length = e - s + 1;
              body = take (e - s + 1) (drop s bytes);
            }))
unfolding serve_file
serve_file_lem bytes ct range w = (
  refl,
  λ r h. lengths (parse_range range (length bytes)) refl r h,
  λ p. rw (p, serve_file) refl,
  λ s e p. rw (p, serve_file) refl,
)
  where
    lengths :
        (o : Option (ℕ × ℕ))
        → parse_range range (length bytes) ≡ o
        → (r : Response) → serve_file (some bytes) ct range ≡ ok r
        → r.content_length ≡ length r.body
    lengths none p r h = ground arith
    lengths (some (s, e)) p r h =
        let (i, j) = parse_range_bounds range (length bytes) s e w p in
        ground (arith, length_slice bytes s e i j)
