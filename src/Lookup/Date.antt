-- ===== src/Lookup/Date.antt =====
-- Registry dates: parseFlexibleDate in src/internal/monitor/lookup.go. `time.Parse` is a parameter,
-- from a layout and a text to a time in UTC; so is the order in which Go ranges over the map of
-- time zones. The two kinds of error are one `none`, as the callers only test for nil.
use domain_monitor.Base.{
  not, ◌&&◌, ◌||◌, List, [], ◌∷◌, ◌++◌, Option, none, some, if◌then◌else◌, is_empty,
}
use domain_monitor.Text.{
  Text, codes, text_beq, Unicode, to_lower, trim_space, trim, one_of, cut, has_substring,
  has_suffix, trim_suffix,
}
use domain_monitor.Types.Condition.{Time}

unfoldable pub timezone_offsets : List (Text × Text)
timezone_offsets =
    (codes " UTC", codes " +0000")
    ∷ (codes " GMT", codes " +0000")
    ∷ (codes " Z", codes " +0000")
    ∷ (codes " EDT", codes " -0400")
    ∷ (codes " EST", codes " -0500")
    ∷ (codes " CDT", codes " -0500")
    ∷ (codes " CST", codes " -0600")
    ∷ (codes " MDT", codes " -0600")
    ∷ (codes " MST", codes " -0700")
    ∷ (codes " PDT", codes " -0700")
    ∷ (codes " PST", codes " -0800")
    ∷ (codes " JST", codes " +0900")
    ∷ (codes " KST", codes " +0900")
    ∷ (codes " AEST", codes " +1000")
    ∷ (codes " AEDT", codes " +1100")
    ∷ (codes " CET", codes " +0100")
    ∷ (codes " CEST", codes " +0200")
    ∷ (codes " BST", codes " +0100")
    ∷ []

unfoldable pub registry_date_layouts : List Text
registry_date_layouts =
    codes "2006-01-02T15:04:05Z07:00"
    ∷ codes "2006-01-02T15:04:05.999999999Z07:00"
    ∷ codes "2006-01-02T15:04:05"
    ∷ codes "2006-01-02 15:04:05.999999999"
    ∷ codes "2006-01-02 15:04:05 -0700"
    ∷ codes "2006-01-02 15:04:05 -07:00"
    ∷ codes "2006-01-02 15:04:05 MST"
    ∷ codes "2006-01-02 15:04:05"
    ∷ codes "2006-01-02"
    ∷ codes "02-Jan-2006 15:04:05 -0700"
    ∷ codes "02-Jan-2006 15:04:05 -07:00"
    ∷ codes "02-Jan-2006 15:04:05 MST"
    ∷ codes "02-Jan-2006 15:04:05"
    ∷ codes "02-Jan-2006"
    ∷ codes "2006.01.02 15:04:05"
    ∷ codes "2006.01.02"
    ∷ codes "2006/01/02 15:04:05"
    ∷ codes "2006/01/02"
    ∷ codes "02/01/2006"
    ∷ codes "02.01.2006"
    ∷ codes "Mon Jan _2 15:04:05 MST 2006"
    ∷ codes "20060102"
    ∷ []

-- "Expires on:" and the like go.
unfoldable pub strip_label : Unicode → Text → Text
unfolding cut to_lower has_substring trim_space
strip_label u clean =
    let (before, behind) = cut b':' clean in
    elim behind [
      | none ↦ clean
      | some after ↦
          let lower = to_lower u before in
          if not (has_substring before (codes "T"))
            && (has_substring lower (codes "expire")
                || has_substring lower (codes "date")
                || has_substring lower (codes "valid"))
          then trim_space after
          else clean
    ]

-- "(UTC)" and what follows goes.
unfoldable pub strip_note : Text → Text
unfolding cut trim_space
strip_note clean =
    let (before, behind) = cut b'(' clean in
    elim behind [ none ↦ clean | some after ↦ trim_space before ]

-- The first zone of the map's order that ends the text is replaced by its offset.
unfoldable pub replace_zone : List (Text × Text) → Text → Text
unfolding has_suffix trim_suffix
replace_zone [] clean = clean
replace_zone ((tz, offset) ∷ zones) clean =
    if has_suffix clean tz then trim_suffix clean tz ++ offset else replace_zone zones clean

unfoldable pub first_layout : (Text → Text → Option Time) → List Text → Text → Option Time
first_layout parse [] target = none
first_layout parse (layout ∷ layouts) target = elim (parse layout target) [
  | some t ↦ some t
  | none ↦ first_layout parse layouts target
]

unfoldable pub first_target : (Text → Text → Option Time) → List Text → Option Time
unfolding first_layout registry_date_layouts
first_target parse [] = none
first_target parse (target ∷ targets) = elim (first_layout parse registry_date_layouts target) [
  | some t ↦ some t
  | none ↦ first_target parse targets
]

unfoldable pub parse_flexible_date :
    Unicode → (Text → Text → Option Time) → List (Text × Text) → Text → Option Time
unfolding trim_space trim strip_label strip_note replace_zone first_target
parse_flexible_date u parse zones date =
    let clean = trim (one_of (codes "\"' ")) (strip_note (strip_label u (trim_space date))) in
    let normalized = replace_zone zones clean in
    if is_empty (trim_space date)
    then none
    else first_target parse
        (normalized ∷ (if not (text_beq clean normalized) then clean ∷ [] else []))
