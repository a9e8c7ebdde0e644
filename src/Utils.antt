-- ===== src/Utils.antt =====
-- Text normalisation: src/internal/monitor/utils.go, sections 2, 3 and 5.
pub mod Unique
pub mod Retry
use domain_monitor.Base.{
  ℕ, not, ◌||◌, List, [], ◌∷◌, ◌++◌, map, Option, none, some, ◌==◌, if◌then◌else◌, keep, is_empty,
  take, KeySet, member, add,
}
use domain_monitor.Text.{Text, codes, text_eq, Unicode, to_lower, trim_space, trim_suffix}

module _ (u : Unicode) where
  unfoldable pub normalize_domain : Text → Text
  unfolding to_lower trim_suffix trim_space
  normalize_domain domain = to_lower u (trim_suffix (trim_space domain) (codes "."))

  -- `idna` is golang.org/x/net/idna.ToASCII, with `none` for an error.
  unfoldable pub normalize_domain_to_ascii_text : (Text → Option Text) → Text → Text
  unfolding normalize_domain
  normalize_domain_to_ascii_text idna domain =
      let cleaned = normalize_domain domain in
      elim (idna cleaned) [
        | some ascii ↦ if not (is_empty ascii) then ascii else cleaned
        | none ↦ cleaned
      ]

  unfoldable pub normalize_status_token : Text → Text
  unfolding trim_space
  normalize_status_token s =
      map u.to_lower (keep (λ r. not (r == b' ' || r == b'-' || r == b'_')) (trim_space s))

-- The loop, with the set of what was seen and the result so far.
unfoldable pub deduplicate : List Text → KeySet Text → List Text → List Text
unfolding trim_space
deduplicate [] seen result = result
deduplicate (item ∷ items) seen result =
    let cleaned = trim_space item in
    let skip = is_empty cleaned || member cleaned seen in
    deduplicate items (if skip then seen else add cleaned seen)
      (if skip then result else result ++ cleaned ∷ [])

unfoldable pub deduplicate_non_empty_strings : List Text → List Text
unfolding deduplicate
deduplicate_non_empty_strings items = deduplicate items [] []

-- A text is its runes, so the cut at the byte of rune `max_runes` keeps that many runes.
unfoldable pub truncate_runes : Text → ℕ → Text
truncate_runes s max_runes = take max_runes s
