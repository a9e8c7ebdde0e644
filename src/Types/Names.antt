-- ===== src/Types/Names.antt =====
-- The published names of the enumerations: String, MarshalJSONTo, MarshalText and UnmarshalJSON of
-- src/internal/monitor/types.go. The JSON string itself is read and written by encoding/json: the
-- functions here have its text.
use domain_monitor.Base.{
  ℕ, zero, suc, ◌<◌, ◌≡◌, refl, true, false, List, [], ◌∷◌, Option, none, some, arith,
  if◌then◌else◌, is_empty, get_elem?, get_or_else, length, contains, distinct, Bool-cases, ap, inl,
  inr,
}
use domain_monitor.Text.{Text, text_beq, text_beq_iff, text_eq}
use domain_monitor.Types.Code.{ResultCode, result_code_names}
use domain_monitor.Types.Status.{
  CheckStatus, unknown, pending, ok, failed, mismatch, warning, hijacked, skipped, status_number,
  check_status_names, FindingSeverity, finding_info, finding_warning, finding_error,
  severity_number, finding_severity_names, AlertPriority, priority_default, priority_warning,
  priority_high, priority_urgent, priority_number, alert_priority_names,
}

-- `names[n]`, and the empty text where there is none.
unfoldable pub name_at : List Text → ℕ → Text
name_at names n = get_or_else (get_elem? names n) []

-- `for index, known := range names { if name == known { return index } }`
unfoldable pub index_of : List Text → Text → Option ℕ
index_of [] name = none
index_of (known ∷ names) name = elim (text_beq name known) [
  | true ↦ some 0
  | false ↦ elim (index_of names name) [ none ↦ none | some n ↦ some (suc n) ]
]

unfoldable pub result_code_string : ResultCode → Text
unfolding name_at
result_code_string r = name_at result_code_names r

-- No text: the code is refused.
unfoldable pub marshal_result_code : ResultCode → Option Text
unfolding result_code_string
marshal_result_code r =
    if is_empty (result_code_string r) then none else some (result_code_string r)

unfoldable pub unmarshal_result_code : Text → Option ResultCode
unmarshal_result_code name = index_of result_code_names name

index_of_sound :
    (names : List Text) (name : Text) (n : ℕ)
    → index_of names name ≡ some n
    → name_at names n ≡ name
unfolding index_of name_at
index_of_sound [] name n h = absurd (ground arith)
index_of_sound (known ∷ names) name zero h = ground (arith, text_beq_iff name known)
index_of_sound (known ∷ names) name (suc n) h =
    ground (arith, text_beq_iff name known, index_of_sound names name n)

contains-name_at :
    (names : List Text) (n : ℕ) → n < length names → contains names (name_at names n) ≡ true
unfolding name_at contains
contains-name_at [] n h = absurd (omega arith)
contains-name_at (known ∷ names) zero h = ground (arith, text_beq_iff known known)
contains-name_at (known ∷ names) (suc n) h = ground (arith, contains-name_at names n)

index_of_complete :
    (names : List Text) (n : ℕ)
    → distinct names ≡ true
    → n < length names
    → index_of names (name_at names n) ≡ some n
unfolding index_of name_at distinct
index_of_complete [] n d h = absurd (omega arith)
index_of_complete (known ∷ names) zero d h = ground (arith, text_beq_iff known known)
index_of_complete (known ∷ names) (suc n) d h =
    let at = contains-name_at names n (omega arith) in
    elim (Bool-cases (text_beq (name_at names n) known)) [
      | inl e ↦
          absurd
            (ground (arith, at, ap (contains names) ((text_beq_iff (name_at names n) known).0 e)))
      | inr e ↦ ground (arith, index_of_complete names n)
    ]

name_at_bound : (names : List Text) (n : ℕ) → is_empty (name_at names n) ≡ false → n < length names
unfolding name_at
name_at_bound [] n h = absurd (ground arith)
name_at_bound (known ∷ names) zero h = omega arith
name_at_bound (known ∷ names) (suc n) h = omega (arith, name_at_bound names n h)

result_code_names-distinct : distinct result_code_names ≡ true
unfolding distinct result_code_names text_beq
result_code_names-distinct = refl

-- A result code survives its JSON name: what MarshalJSONTo writes for a code, UnmarshalJSON reads as
-- that code.
pub result_code_roundtrip :
    (r : ResultCode) (name : Text)
    → marshal_result_code r ≡ some name
    → unmarshal_result_code name ≡ some r
unfolding marshal_result_code unmarshal_result_code result_code_string
result_code_roundtrip r name h = elim (Bool-cases (is_empty (result_code_string r))) [
  | inl e ↦ cc (rw e at h)
  | inr e ↦
      let bound = name_at_bound result_code_names r e in
      let named : name ≡ name_at result_code_names r = ground arith in
      rw named (index_of_complete result_code_names r result_code_names-distinct bound)
]

-- The values of the three small enumerations, in the order of their numbers.
unfoldable pub nth_value {ℓ} : {A : Type ℓ} → List A → Option ℕ → Option A
nth_value values none = none
nth_value values (some n) = get_elem? values n

abbrev pub check_statuses : List CheckStatus
check_statuses = unknown ∷ pending ∷ ok ∷ failed ∷ mismatch ∷ warning ∷ hijacked ∷ skipped ∷ []

unfoldable pub check_status_string : CheckStatus → Text
unfolding name_at check_status_names
check_status_string s = name_at check_status_names (status_number s)

unfoldable pub unmarshal_check_status : Text → Option CheckStatus
unfolding index_of nth_value check_status_names
unmarshal_check_status name = nth_value check_statuses (index_of check_status_names name)

abbrev pub finding_severities : List FindingSeverity
finding_severities = finding_info ∷ finding_warning ∷ finding_error ∷ []

unfoldable pub finding_severity_string : FindingSeverity → Text
unfolding name_at finding_severity_names
finding_severity_string s = name_at finding_severity_names (severity_number s)

unfoldable pub unmarshal_finding_severity : Text → Option FindingSeverity
unfolding index_of nth_value finding_severity_names
unmarshal_finding_severity name =
    nth_value finding_severities (index_of finding_severity_names name)

abbrev pub alert_priorities : List AlertPriority
alert_priorities = priority_default ∷ priority_warning ∷ priority_high ∷ priority_urgent ∷ []

unfoldable pub alert_priority_string : AlertPriority → Text
unfolding name_at alert_priority_names
alert_priority_string p = name_at alert_priority_names (priority_number p)

unfoldable pub unmarshal_alert_priority : Text → Option AlertPriority
unfolding index_of nth_value alert_priority_names
unmarshal_alert_priority name = nth_value alert_priorities (index_of alert_priority_names name)

check_status_roundtrip : (s : CheckStatus) → unmarshal_check_status (check_status_string s) ≡ some s
unfolding unmarshal_check_status check_status_string text_beq
check_status_roundtrip unknown = refl
check_status_roundtrip _ = refl

finding_severity_roundtrip :
    (v : FindingSeverity) → unmarshal_finding_severity (finding_severity_string v) ≡ some v
unfolding unmarshal_finding_severity finding_severity_string text_beq
finding_severity_roundtrip finding_info = refl
finding_severity_roundtrip _ = refl

alert_priority_roundtrip :
    (p : AlertPriority) → unmarshal_alert_priority (alert_priority_string p) ≡ some p
unfolding unmarshal_alert_priority alert_priority_string text_beq
alert_priority_roundtrip priority_default = refl
alert_priority_roundtrip _ = refl

-- The name of a check status, of a finding severity and of an alert priority is read back as the
-- value that it names.
pub enumeration_roundtrip :
    (s : CheckStatus) (v : FindingSeverity) (p : AlertPriority)
    → (unmarshal_check_status (check_status_string s) ≡ some s)
      × (unmarshal_finding_severity (finding_severity_string v) ≡ some v)
      × (unmarshal_alert_priority (alert_priority_string p) ≡ some p)
enumeration_roundtrip s v p =
    (check_status_roundtrip s, finding_severity_roundtrip v, alert_priority_roundtrip p)
