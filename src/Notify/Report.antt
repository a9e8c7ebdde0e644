-- ===== src/Notify/Report.antt =====
-- The report of a cycle and the bounds on what is sent: truncateAlertBytes, boundAlertPayload,
-- formatNtfyMessage, buildCycleReport and the body of the request of sendNtfyBatchContext in src/internal/monitor/notify.go.
mod Trimmed
pub mod Bounds
pub mod Decimal
use domain_monitor.Base.{
  ℕ, zero, suc, ◌+◌, ◌-◌, ◌/◌, ◌%◌, Bool, true, false, not, ◌||◌, List, [], ◌∷◌, ◌++◌, ltb, leb,
  if◌then◌else◌, is_empty, length,
}
use domain_monitor.Text.{Text, codes, has_prefix, byte_len, rune_len, trim_space}
use domain_monitor.Utils.{truncate_runes}
use domain_monitor.Types.Status.{AlertPriority, priority_default}
use domain_monitor.Notify.Order.{Alert}

abbrev pub max_alert_message_runes : ℕ
max_alert_message_runes = 1000

abbrev pub max_provider_message_bytes : ℕ
max_provider_message_bytes = 3500

abbrev pub max_alert_name_runes : ℕ
max_alert_name_runes = 80

abbrev pub alert_truncation_notice : Text
alert_truncation_notice = codes " [truncated; see local state]"

abbrev pub redacted_domain_placeholder : Text
redacted_domain_placeholder = codes "[Hidden Domain]"

-- The loop of truncateAlertBytes, with the length of what was written so far.
unfoldable pub fitting_runes : ℕ → ℕ → Text → Text
unfolding rune_len
fitting_runes remaining written [] = []
fitting_runes remaining written (r ∷ message) = elim (ltb remaining (written + rune_len r)) [
  | true ↦ []
  | false ↦ r ∷ fitting_runes remaining (written + rune_len r) message
]

unfoldable pub truncate_alert_bytes : Text → ℕ → Text
unfolding byte_len fitting_runes
truncate_alert_bytes message limit =
    if leb (byte_len message) limit
    then message
    else fitting_runes (limit - byte_len alert_truncation_notice) 0 message
      ++ alert_truncation_notice

unfoldable pub bound_alert_payload : Text → Text
unfolding truncate_alert_bytes truncate_runes
bound_alert_payload text =
    truncate_alert_bytes
      (if ltb max_alert_message_runes (length text)
        then truncate_runes text (max_alert_message_runes - length alert_truncation_notice)
          ++ alert_truncation_notice
        else text)
      max_provider_message_bytes

-- strings.ReplaceAll for an `old` that is not empty; `skip` counts the rest of a hit.
unfoldable pub replace_from : Text → Text → Text → ℕ → Text
unfolding has_prefix
replace_from [] old new skip = []
replace_from (c ∷ s) old new (suc skip) = replace_from s old new skip
replace_from (c ∷ s) old new zero = elim (has_prefix (c ∷ s) old) [
  | true ↦ new ++ replace_from s old new (length old - 1)
  | false ↦ c ∷ replace_from s old new 0
]

unfoldable pub replace_all : Text → Text → Text → Text
unfolding replace_from
replace_all s old new = replace_from s old new 0

-- The text of one alert, before it is bounded.
unfoldable pub ntfy_text : Alert → Text
unfolding replace_all
ntfy_text alert =
    let msg = if is_empty alert.redacted then alert.message else alert.redacted in
    let replacement =
      if not (is_empty alert.name) then alert.name else redacted_domain_placeholder in
    let hidden =
      if not (is_empty alert.domain) then replace_all msg alert.domain replacement else msg in
    let prefix =
      if not (is_empty alert.name)
      then b'[' ∷ truncate_runes alert.name max_alert_name_runes ++ codes "] "
      else [] in
    prefix ++ hidden

unfoldable pub format_ntfy_message : Alert → Text
unfolding ntfy_text bound_alert_payload
format_ntfy_message alert = bound_alert_payload (ntfy_text alert)

-- The verb %d, on as much fuel as the number: each step divides it by ten.
unfoldable pub decimal_digits : ℕ → ℕ → Text
decimal_digits zero n = (b'0' + n % 10) ∷ []
decimal_digits (suc fuel) n = elim (ltb n 10) [
  | true ↦ (b'0' + n) ∷ []
  | false ↦ decimal_digits fuel (n / 10) ++ ((b'0' + n % 10) ∷ [])
]

unfoldable pub decimal : ℕ → Text
unfolding decimal_digits
decimal n = decimal_digits n n

unfoldable pub omitted_notice : ℕ → Text
unfolding decimal
omitted_notice n = codes "\n… " ++ (decimal n ++ codes " additional findings omitted")

-- The loop of buildCycleReport: the texts, with a newline between two of them.
unfoldable pub joined : (Alert → Text) → List Alert → Text
joined text [] = []
joined text (a ∷ []) = text a
joined text (a ∷ b ∷ batch) = text a ++ (10 ∷ joined text (b ∷ batch))

abbrev pub first_priority : List Alert → AlertPriority
first_priority [] = priority_default
first_priority (a ∷ batch) = a.priority

abbrev pub first_tag : List Alert → Text
first_tag [] = []
first_tag (a ∷ batch) = a.tag

-- `digest` stands for the first eight bytes of crypto/sha256, in hexadecimal.
unfoldable pub build_cycle_report : (Text → Text) → List Alert → ℕ → Alert
unfolding joined format_ntfy_message omitted_notice bound_alert_payload
build_cycle_report digest batch omitted =
    let notice = if ltb 0 omitted then omitted_notice omitted else [] in
    let redacted = bound_alert_payload (joined format_ntfy_message batch ++ notice) in
    record {
      message = joined (λ (a : Alert). a.message) batch ++ notice;
      redacted = redacted;
      priority = first_priority batch;
      tag = first_tag batch;
      domain = [];
      name = [];
      check = [];
      report_id = digest redacted;
    }

-- The body of the request that sendNtfyBatchContext makes.
unfoldable pub ntfy_body : Alert → Text
unfolding format_ntfy_message trim_space
ntfy_body alert =
    let formatted =
      is_empty alert.redacted || not (is_empty alert.domain) || not (is_empty alert.name) in
    trim_space (if formatted then format_ntfy_message alert else alert.redacted)
