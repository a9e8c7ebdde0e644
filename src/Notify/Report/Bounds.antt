-- ===== src/Notify/Report/Bounds.antt =====
-- The bounds on the text of a report.
use domain_monitor.Base.{
  ℕ, Bool, true, false, ◌+◌, ◌-◌, ◌*◌, ◌⊎◌, ◌≤◌, ◌<◌, ◌≡◌, refl, inl, inr, ap, List, [], ◌∷◌, ◌++◌,
  ltb, leb, if◌then◌else◌, length, take, arith, Bool-cases, length-append, length-take, is_empty,
}
use domain_monitor.Text.{Text, byte_len, rune_len, byte_len-append, trim_space}
use domain_monitor.Notify.Report.Trimmed.{trim_space-bounds}
use domain_monitor.Utils.{truncate_runes}
use domain_monitor.Notify.Order.{Alert}
use domain_monitor.Notify.Report.{
  alert_truncation_notice, fitting_runes, truncate_alert_bytes, bound_alert_payload,
  build_cycle_report, joined, omitted_notice, ntfy_text, format_ntfy_message, ntfy_body,
}

rune_len_bound : (r : ℕ) → (1 ≤ rune_len r) × (rune_len r ≤ 4)
unfolding rune_len
rune_len_bound r = (ground arith, ground arith)

byte_len_bound : (s : Text) → (length s ≤ byte_len s) × (byte_len s ≤ 4 * length s)
unfolding byte_len
byte_len_bound [] = (omega arith, omega arith)
byte_len_bound (r ∷ s) = (
  omega (arith, rune_len_bound r, byte_len_bound s),
  omega (arith, rune_len_bound r, byte_len_bound s),
)

notice_len : (byte_len alert_truncation_notice ≡ 29) × (length alert_truncation_notice ≡ 29)
unfolding byte_len
notice_len = (refl, refl)

fitting_runes-byte_len :
    (remaining written : ℕ) (s : Text)
    → written ≤ remaining
    → written + byte_len (fitting_runes remaining written s) ≤ remaining
unfolding fitting_runes byte_len
fitting_runes-byte_len remaining written [] h = omega (arith, h)
fitting_runes-byte_len remaining written (r ∷ s) h =
    ground (arith, fitting_runes-byte_len remaining (written + rune_len r) s)

fitting_runes-length :
    (remaining written : ℕ) (s : Text) → length (fitting_runes remaining written s) ≤ length s
unfolding fitting_runes
fitting_runes-length remaining written [] = omega arith
fitting_runes-length remaining written (r ∷ s) =
    ground (arith, fitting_runes-length remaining (written + rune_len r) s)

-- What is dropped has at most four bytes for each rune.
fitting_runes-dropped :
    (remaining written : ℕ) (s : Text)
    → byte_len s + 4 * length (fitting_runes remaining written s)
      ≤ byte_len (fitting_runes remaining written s) + 4 * length s
unfolding fitting_runes byte_len
fitting_runes-dropped remaining written [] = omega arith
fitting_runes-dropped remaining written (r ∷ s) = ground (
  arith,
  fitting_runes-dropped remaining (written + rune_len r) s,
  rune_len_bound r,
  byte_len_bound s,
)

-- One round: the rune is written, or all that is left is dropped.
prefix_step :
    (stops : Bool) (r : ℕ) (s kept rest : Text)
    → s ≡ kept ++ rest
    → (dropped : Text) × (r ∷ s ≡ elim stops [ true ↦ [] | false ↦ r ∷ kept ] ++ dropped)
prefix_step true r s kept rest e = (r ∷ s, refl)
prefix_step false r s kept rest e = (rest, ap (λ t. r ∷ t) e)

fitting_runes-prefix :
    (remaining written : ℕ) (s : Text)
    → (rest : Text) × (s ≡ fitting_runes remaining written s ++ rest)
unfolding fitting_runes
fitting_runes-prefix remaining written [] = ([], refl)
fitting_runes-prefix remaining written (r ∷ s) =
    let (rest, e) = fitting_runes-prefix remaining (written + rune_len r) s in
    prefix_step (ltb remaining (written + rune_len r)) r s _ rest e

-- A message cut to a limit of at least 29 bytes, the length of the notice, meets the limit. It is the
-- message itself, or the message is longer than the limit and a start of it is followed by the
-- notice.
truncate_alert_bytes_bounded :
    (message : Text) (limit : ℕ)
    → 29 ≤ limit
    → let sent = truncate_alert_bytes message limit in
      (byte_len sent ≤ limit)
      × ((sent ≡ message)
          ⊎ ((kept rest : Text) × (limit < byte_len message)
              × (message ≡ kept ++ rest)
              × (sent ≡ kept ++ alert_truncation_notice)))
unfolding truncate_alert_bytes
truncate_alert_bytes_bounded message limit h =
    let kept = fitting_runes (limit - byte_len alert_truncation_notice) 0 message in
    elim (Bool-cases (leb (byte_len message) limit)) [
      | inl short ↦ rw short (ground (arith, short), inl refl)
      | inr long ↦
          let (rest, e) =
            fitting_runes-prefix (limit - byte_len alert_truncation_notice) 0 message in
          rw long (
            ground (
              arith,
              h,
              notice_len,
              byte_len-append kept alert_truncation_notice,
              fitting_runes-byte_len (limit - byte_len alert_truncation_notice) 0 message,
            ),
            inr (kept, rest, ground (arith, long), e, refl),
          )
    ]

-- A text of at most 1000 runes has at most 1021 of them after the cut to 3500 bytes.
truncate_alert_bytes-length :
    (s : Text) → length s ≤ 1000 → length (truncate_alert_bytes s 3500) ≤ 1021
unfolding truncate_alert_bytes
truncate_alert_bytes-length s h =
    let kept = fitting_runes (3500 - byte_len alert_truncation_notice) 0 s in
    elim (Bool-cases (leb (byte_len s) 3500)) [
      | inl short ↦ rw short (omega (arith, h))
      | inr long ↦ rw long (
          ground (
            arith,
            h,
            notice_len,
            length-append kept alert_truncation_notice,
            fitting_runes-byte_len (3500 - byte_len alert_truncation_notice) 0 s,
            fitting_runes-dropped (3500 - byte_len alert_truncation_notice) 0 s,
          ))
    ]

leb_of : (m n : ℕ) → ltb n m ≡ false → m ≤ n
leb_of m n h = ground arith

cut_runes-length :
    (text : Text)
    → length (
        if ltb 1000 (length text) then truncate_runes text 971 ++ alert_truncation_notice else text)
      ≤ 1000
unfolding truncate_runes
cut_runes-length text = elim (Bool-cases (ltb 1000 (length text))) [
  | inl long ↦ rw long (
      omega (
        arith,
        length-append (take 971 text) alert_truncation_notice,
        length-take 971 text,
        notice_len,
      ))
  | inr short ↦ rw short (leb_of (length text) 1000 short)
]

-- Whatever its text, a payload has at most 3500 bytes and at most 1021 runes.
pub bound_alert_payload_bounded :
    (text : Text)
    → (byte_len (bound_alert_payload text) ≤ 3500) × (length (bound_alert_payload text) ≤ 1021)
unfolding bound_alert_payload
bound_alert_payload_bounded text =
    let runes =
      if ltb 1000 (length text) then truncate_runes text 971 ++ alert_truncation_notice else text in
    (
      (truncate_alert_bytes_bounded runes 3500 (omega arith)).0,
      truncate_alert_bytes-length runes (cut_runes-length text),
    )

trimmed_payload-bounded :
    (text : Text)
    → let sent = trim_space (bound_alert_payload text) in
      (byte_len sent ≤ 3500) × (length sent ≤ 1021)
trimmed_payload-bounded text =
    let trimmed = trim_space-bounds (bound_alert_payload text) in
    let bounded = bound_alert_payload_bounded text in
    (omega (arith, trimmed.0, bounded.0), omega (arith, trimmed.1, bounded.1))

format_ntfy_message-bounded :
    (a : Alert)
    → let sent = trim_space (format_ntfy_message a) in (byte_len sent ≤ 3500) × (length sent ≤ 1021)
unfolding format_ntfy_message
format_ntfy_message-bounded a = trimmed_payload-bounded (ntfy_text a)

ntfy_body-plain :
    (a : Alert)
    → a.domain ≡ []
    → a.name ≡ []
    → ntfy_body a ≡ trim_space (if is_empty a.redacted then format_ntfy_message a else a.redacted)
unfolding ntfy_body
ntfy_body-plain a d n = rw (d, n) (ground arith)

-- An alert that names no domain, with a text that is bounded.
ntfy_body-bounded :
    (a : Alert) (text : Text)
    → a.domain ≡ []
    → a.name ≡ []
    → a.redacted ≡ bound_alert_payload text
    → (byte_len (ntfy_body a) ≤ 3500)
      × (length (ntfy_body a) ≤ 1021)
      × (ntfy_body a
          ≡ trim_space (if is_empty a.redacted then format_ntfy_message a else a.redacted))
ntfy_body-bounded a text d n r =
    let plain = ntfy_body-plain a d n in
    let (bytes, runes) = trimmed_payload-bounded text in
    let (other_bytes, other_runes) = format_ntfy_message-bounded a in
    elim (Bool-cases (is_empty a.redacted)) [
      | inl e ↦ rw (plain, e) (other_bytes, other_runes, refl)
      | inr e ↦ rw (plain, e, r) (bytes, runes, refl)
    ]

-- What is sent for a cycle, the body of the request, has at most 3500 bytes and at most 1021 runes,
-- whatever the alerts and the number of those omitted. It is the redacted text of the report, trimmed;
-- only where that text is empty, the report is formatted like an alert of its own.
pub build_cycle_report_bounded :
    (digest : Text → Text) (batch : List Alert) (omitted : ℕ)
    → let report = build_cycle_report digest batch omitted in
      (byte_len (ntfy_body report) ≤ 3500)
      × (length (ntfy_body report) ≤ 1021)
      × (ntfy_body report
          ≡ trim_space
              (if is_empty report.redacted then format_ntfy_message report else report.redacted))
unfolding build_cycle_report
build_cycle_report_bounded digest batch omitted =
    ntfy_body-bounded (build_cycle_report digest batch omitted)
      (joined format_ntfy_message batch ++ (if ltb 0 omitted then omitted_notice omitted else []))
      refl refl refl
