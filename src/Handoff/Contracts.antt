-- ===== src/Handoff/Contracts.antt =====
-- src/orbitmind/api/transient_handoff.py: the values of the hand-off store and their bounds.
-- A reading of the monotonic clock is a number of ticks, and a time to live is counted in the same
-- ticks: the rounding of floating-point sums is not modelled. Digests are texts.
use orbit_mind_living_q_core.Common.{
  ℕ, ◌+◌, String, Bool, true, false, not, ◌&&◌, ◌||◌, Option, List, [], ◌∷◌, ltb, leb, length, all,
  codes, if◌then◌else◌, string_eq, ◌==◌, ◌!=◌,
}

pub data DiagnosticEventType : Type 0 where
  created consumed expired rejected capacity_rejected : DiagnosticEventType
  owner_mismatch malformed_identifier : DiagnosticEventType

pub data DiagnosticReason : Type 0 where
  created consumed expired invalid_identifier unavailable : DiagnosticReason
  owner_mismatch purpose_mismatch global_capacity session_capacity : DiagnosticReason
  record_too_large collision_limit : DiagnosticReason

pub data DiagnosticStatus : Type 0 where
  recorded rejected : DiagnosticStatus

-- The three exceptions of the module.
pub data HandoffError : Type 0 where
  unavailable_error capacity_error record_error : HandoffError

-- `TransientHandoffLimits`.
pub record Limits : Type 0 where
  pub handoff_ttl : ℕ
  pub session_ttl : ℕ
  pub maximum_records : ℕ
  pub maximum_records_per_session : ℕ
  pub maximum_sessions : ℕ
  pub maximum_logical_record_bytes : ℕ
  pub maximum_diagnostic_events : ℕ

-- The defaults of the class, in seconds.
abbrev pub default_limits : Limits
default_limits = record {
  handoff_ttl = 300;
  session_ttl = 1_800;
  maximum_records = 128;
  maximum_records_per_session = 4;
  maximum_sessions = 128;
  maximum_logical_record_bytes = 1_024;
  maximum_diagnostic_events = 256;
}

-- A datetime: its instant, and whether it has a zone and an offset.
pub record DateTime : Type 0 where
  pub is_aware : Bool
  pub instant : ℕ

-- A float that is only stored, and tested for being finite.
pub data Float : Type 0 where
  finite : String → Float
  infinite nan : Float

unfoldable pub is_finite : Float → Bool
is_finite (finite _) = true
is_finite infinite = false
is_finite nan = false

-- `TransientHandoffInput`. The two counts are natural numbers: one that is not positive is zero.
pub record HandoffInput : Type 0 where
  pub safe_source_label : String
  pub source_checksum : String
  pub stable_source_reference : String
  pub tle_line1 : String
  pub tle_line2 : String
  pub observer_latitude_deg : Float
  pub observer_longitude_deg : Float
  pub observer_altitude_metres : Float
  pub start_time_utc : DateTime
  pub end_time_utc : DateTime
  pub sample_interval_seconds : ℕ
  pub maximum_samples : ℕ

-- `TransientCustomTleHandoffRecord`; `input` holds the fields that are copied from the input.
pub record HandoffRecord : Type 0 where
  pub session_binding_digest : String
  pub purpose : String
  pub created_monotonic : ℕ
  pub expires_monotonic : ℕ
  pub session_expires_monotonic : ℕ
  pub input : HandoffInput
  pub schema_version : String

pub record SessionEntry : Type 0 where
  pub binding_digest : String
  pub created_monotonic : ℕ
  pub expires_monotonic : ℕ

pub record HandoffCreation : Type 0 where
  pub handoff_token : String
  pub session_cookie_value : Option String

-- `TransientDiagnosticEvent`; its purpose is the only one there is.
pub record DiagnosticEvent : Type 0 where
  pub event_type : DiagnosticEventType
  pub at : ℕ
  pub status : DiagnosticStatus
  pub reason : DiagnosticReason

abbrev pub replay_purpose : String
replay_purpose = "CUSTOM_TLE_TRAJECTORY_REPLAY"

abbrev pub record_schema_version : String
record_schema_version = "custom-tle-handoff-record-v1"

-- `[A-Za-z0-9_-]`.
unfoldable pub is_token_code : ℕ → Bool
is_token_code c =
    (leb 65 c && leb c 90)
    || (leb 97 c && leb c 122)
    || (leb 48 c && leb c 57)
    || (leb 95 c && leb c 95)
    || (leb 45 c && leb c 45)

-- `HANDOFF_TOKEN_PATTERN.fullmatch`.
unfoldable pub is_token : String → Bool
is_token text =
    leb 43 (length (codes text)) && leb (length (codes text)) 43 && all is_token_code (codes text)

-- The bytes of a code point, and of a text, in UTF-8.
unfoldable pub code_bytes : ℕ → ℕ
code_bytes c = if ltb c 128 then 1 else if ltb c 2_048 then 2 else if ltb c 65_536 then 3 else 4

unfoldable pub bytes_of_codes : List ℕ → ℕ
bytes_of_codes [] = 0
bytes_of_codes (c ∷ cs) = code_bytes c + bytes_of_codes cs

unfoldable pub utf8_length : String → ℕ
utf8_length text = bytes_of_codes (codes text)

unfoldable pub is_ascii : String → Bool
is_ascii text = all (λ c. ltb c 128) (codes text)

-- `[0-9a-f]{64}`.
unfoldable pub is_checksum : String → Bool
is_checksum text =
    leb 64 (length (codes text))
    && leb (length (codes text)) 64
    && all (λ c. (leb 48 c && leb c 57) || (leb 97 c && leb c 102)) (codes text)

unfoldable pub sum_of_texts : List String → ℕ
sum_of_texts [] = 0
sum_of_texts (t ∷ ts) = utf8_length t + 4 + sum_of_texts ts

-- One entry of `text_limits`: does the text break its limit?
unfoldable pub breaks_limit : String → ℕ → Bool → Bool
breaks_limit value limit ascii_only =
    ltb limit (utf8_length value) || (ascii_only && not (is_ascii value)) || (value == "")

-- `canonical_utc` is `datetime.isoformat` in UTC.
module _ (canonical_utc : DateTime → String) where
  -- `logical_size_bytes`.
  unfoldable pub logical_size_bytes : HandoffRecord → ℕ
  logical_size_bytes r =
      sum_of_texts (
        r.purpose
        ∷ r.schema_version
        ∷ r.input.safe_source_label
        ∷ r.input.tle_line1
        ∷ r.input.tle_line2
        ∷ r.input.source_checksum
        ∷ r.input.stable_source_reference
        ∷ canonical_utc r.input.start_time_utc
        ∷ canonical_utc r.input.end_time_utc
        ∷ [])
      + (64 + 24 + 24 + 16)

  -- `_validate_record_fields`: is the record accepted? (The monotonic readings are finite.)
  unfoldable pub validate_record_fields : HandoffRecord → Bool
  validate_record_fields r =
      if breaks_limit r.purpose 32 false
        || breaks_limit r.schema_version 32 false
        || breaks_limit r.input.safe_source_label 80 true
        || breaks_limit r.input.tle_line1 100 true
        || breaks_limit r.input.tle_line2 100 true
        || breaks_limit r.input.source_checksum 64 true
        || breaks_limit r.input.stable_source_reference 80 true
        || breaks_limit (canonical_utc r.input.start_time_utc) 35 true
        || breaks_limit (canonical_utc r.input.end_time_utc) 35 true
      then false
      else if r.purpose != replay_purpose
      then false
      else if not (is_checksum r.input.source_checksum)
      then false
      else if not r.input.start_time_utc.is_aware
          || not r.input.end_time_utc.is_aware
          || leb r.input.end_time_utc.instant r.input.start_time_utc.instant
      then false
      else if not (
          is_finite r.input.observer_latitude_deg
          && is_finite r.input.observer_longitude_deg
          && is_finite r.input.observer_altitude_metres)
      then false
      else not (leb r.input.sample_interval_seconds 0 || leb r.input.maximum_samples 0)
