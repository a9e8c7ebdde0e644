-- ===== src/Email/Tags.antt =====
-- The `tag=value` lists of DMARC and DKIM records: parseSemicolonTags and the functions of
-- src/internal/monitor/dns.go that read a policy or a key from them.
use domain_monitor.Base.{
  ℕ, Bool, true, false, not, ◌&&◌, ◌||◌, List, [], ◌∷◌, Option, none, some, leb, ltb, ◌==◌,
  if◌then◌else◌, is_empty, is_some, get_or_else, first_of, all, keep, length, Map, lookup, insert,
}
use domain_monitor.Text.{
  Text, codes, text_beq, text_eq, Unicode, to_lower, equal_fold, trim_space, is_space, cut, parts,
  byte_len, take_bytes, drop_bytes,
}

-- What the program calls of encoding/base64 and crypto/x509. The two decoders give `none` for an
-- error; the two parsers give the bit length of an RSA modulus, and `none` for an error or for a
-- key of another kind.
pub record KeyFormats : Type 0 where
  pub std_decode : Text → Option (List ℕ)
  pub raw_std_decode : Text → Option (List ℕ)
  pub pkcs1_bits : List ℕ → Option ℕ
  pub pkix_rsa_bits : List ℕ → Option ℕ

abbrev pub Tags : Type 0
Tags = Map Text Text

-- A tag that may be left out.
abbrev pub passes : (Text → Bool) → Option Text → Bool
passes test none = true
passes test (some v) = test v

abbrev pub long_enough : Option ℕ → Bool
long_enough none = false
long_enough (some bits) = leb 1024 bits

module _ (u : Unicode) where
  -- One part that is not blank. `none` is a record that is not valid.
  unfoldable pub add_tag : Text → Tags → Option Tags
  unfolding to_lower trim_space cut
  add_tag part tags =
      let (key, value) = cut b'=' (trim_space part) in
      let key' = to_lower u (trim_space key) in
      elim value [
        | none ↦ none
        | some v ↦
            if is_empty (trim_space key)
            then none
            else if is_some (lookup key' tags)
            then none
            else some (insert key' (trim_space v) tags)
      ]

  unfoldable pub read_tags : List Text → Tags → Option Tags
  unfolding add_tag
  read_tags [] tags = some tags
  read_tags (part ∷ rest) tags =
      elim (if is_empty (trim_space part) then some tags else add_tag part tags) [
        | none ↦ none
        | some tags' ↦ read_tags rest tags'
      ]

  unfoldable pub parse_semicolon_tags : Text → Option Tags
  unfolding read_tags parts
  parse_semicolon_tags text = read_tags (parts b';' text) []

  unfoldable pub has_dmarc_version : Text → Bool
  unfolding cut trim_space equal_fold
  has_dmarc_version text =
      let (key, value) = cut b'=' (trim_space (cut b';' text).0) in
      elim value [
        | none ↦ false
        | some v ↦
            equal_fold u (trim_space key) (codes "v") && text_beq (trim_space v) (codes "DMARC1")
      ]

  unfoldable pub valid_policy : Text → Bool
  unfolding to_lower text_beq
  valid_policy policy =
      let p = to_lower u policy in
      text_beq p (codes "none") || text_beq p (codes "quarantine") || text_beq p (codes "reject")

  unfoldable pub valid_psd : Text → Bool
  unfolding equal_fold
  valid_psd psd =
      equal_fold u psd (codes "y") || equal_fold u psd (codes "n") || equal_fold u psd (codes "u")

  unfoldable pub has_valid_dmarc_policy : Text → Bool
  unfolding has_dmarc_version parse_semicolon_tags valid_policy valid_psd
  has_valid_dmarc_policy text =
      if not (has_dmarc_version text) then false else elim (parse_semicolon_tags text) [
        | none ↦ false
        | some tags ↦ elim (lookup (codes "p") tags) [
          | none ↦ false
          | some policy ↦
              valid_policy policy
              && all (λ tag. passes valid_policy (lookup tag tags)) (codes "sp" ∷ codes "np" ∷ [])
              && passes valid_psd (lookup (codes "psd") tags)
        ]
      ]

  -- The record, empty if there is none, and whether a policy is malformed.
  unfoldable pub choose_candidate : List Text → Text × Bool
  choose_candidate [] = ([], false)
  choose_candidate (candidate ∷ []) =
      if not (has_valid_dmarc_policy candidate) then ([], true) else (candidate, false)
  choose_candidate (candidate ∷ other ∷ more) = ([], false)

  unfoldable pub select_dmarc_policy_record : List Text → Text × Bool
  unfolding choose_candidate
  select_dmarc_policy_record records = choose_candidate (keep has_dmarc_version records)

  unfoldable pub dmarc_psd_value : Text → Text
  unfolding parse_semicolon_tags to_lower
  dmarc_psd_value text = elim (parse_semicolon_tags text) [
    | none ↦ []
    | some tags ↦ to_lower u (get_or_else (lookup (codes "psd") tags) [])
  ]

  unfoldable pub is_spf_policy_record : Text → Bool
  unfolding equal_fold take_bytes drop_bytes byte_len
  is_spf_policy_record text =
      if ltb (byte_len text) 6 || not (equal_fold u (take_bytes 6 text) (codes "v=spf1"))
      then false
      else elim (drop_bytes 6 text) [ [] ↦ true | c ∷ rest ↦ c == b' ' ]

  module _ (formats : KeyFormats) where
    -- strings.Fields and strings.Join with no separator leave the characters that are no spaces.
    unfoldable pub valid_dkim_public_key : Text → Text → Bool
    unfolding is_space text_beq
    valid_dkim_public_key key_type key =
        let bare = keep (λ c. not (is_space c)) key in
        elim (first_of (formats.std_decode bare) (formats.raw_std_decode bare)) [
          | none ↦ false
          | some decoded ↦
              if is_empty decoded
              then false
              else if text_beq key_type (codes "ed25519")
              then length decoded == 32
              else if is_some (formats.pkcs1_bits decoded)
              then long_enough (formats.pkcs1_bits decoded)
              else long_enough (formats.pkix_rsa_bits decoded)
        ]

    -- The test of a version tag: it stands first, and names DKIM1.
    unfoldable pub dkim_version_first : Text → Text → Bool
    unfolding cut trim_space equal_fold text_beq
    dkim_version_first text version =
        let (key, value) = cut b'=' (trim_space (cut b';' text).0) in
        is_some value
        && equal_fold u (trim_space key) (codes "v")
        && text_beq version (codes "DKIM1")

    unfoldable pub has_usable_dkim_key : Text → Bool
    unfolding parse_semicolon_tags dkim_version_first valid_dkim_public_key to_lower text_beq
    has_usable_dkim_key text = elim (parse_semicolon_tags text) [
      | none ↦ false
      | some tags ↦
          let key_type = to_lower u (get_or_else (lookup (codes "k") tags) []) in
          if not (passes (dkim_version_first text) (lookup (codes "v") tags))
          then false
          else if not (is_empty key_type)
              && not (text_beq key_type (codes "rsa"))
              && not (text_beq key_type (codes "ed25519"))
          then false
          else elim (lookup (codes "p") tags) [
            | none ↦ false
            | some key ↦ if is_empty key then false else valid_dkim_public_key key_type key
          ]
    ]
