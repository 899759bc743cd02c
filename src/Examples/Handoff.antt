-- ===== src/Examples/Handoff.antt =====
-- The hand-off theorems at a hand-off of one session.
use orbit_mind_living_q_core.Common.{
  ℕ, ◌+◌, ◌≡◌, refl, String, true, false, none, some, [], ◌∷◌, ok, err, String-discrete, get, add,
}
use orbit_mind_living_q_core.Handoff.Contracts.{
  Limits, default_limits, finite, HandoffInput, HandoffRecord, HandoffCreation, capacity_error,
  unavailable_error, SessionEntry, is_finite, is_token_code, is_token, code_bytes, bytes_of_codes,
  utf8_length, is_ascii, is_checksum, sum_of_texts, breaks_limit, logical_size_bytes,
  validate_record_fields,
}
use orbit_mind_living_q_core.Handoff.Sessions.{
  HandoffStore, Functions, new_store, status_of, push_event, event, is_expired, expiry_events,
  remove_expired, binding_for_valid_cookie, live_session, create_session, new_session,
  submitted_session, resolve_or_create_session,
}
use orbit_mind_living_q_core.Handoff.Store.{
  session_records, clear, new_record, unique_token, store_record, create_locked, drop_on_error,
  create_in_session, create, is_owner, consume_record, consume_digest, consume,
}
use orbit_mind_living_q_core.Handoff.Bounds.{
  IsBounded, start, step, created, consumed, Reachable-IsBounded,
}
use orbit_mind_living_q_core.Handoff.Atomic.{SameTables, create-atomic}
use orbit_mind_living_q_core.Handoff.Consume.{Owned, consume-Owned, clear-final}
use orbit_mind_living_q_core.Handoff.Once
use orbit_mind_living_q_core.Handoff.Once.{draws, unchanged, consume-once}
use orbit_mind_living_q_core.Handoff.RoundTrip.{cookie_after, create-consume}

-- Stand-ins for the digests: a text is its own.
abbrev functions : Functions
functions = record {
  hmac = λ key cookie. cookie;
  sha256 = λ token. token;
  canonical_utc = λ d. "2026-01-01T00:00:00.000000Z";
}

abbrev a_cookie : String
a_cookie = "cookieAAAAAAAAAAAAAAAAAAAAAAAAAAAAAAAAAAAAA"

abbrev a_token : String
a_token = "token-BBBBBBBBBBBBBBBBBBBBBBBBBBBBBBBBBBBBB"

abbrev an_input : HandoffInput
an_input = record {
  safe_source_label = "iss";
  source_checksum = "0123456789abcdef0123456789abcdef0123456789abcdef0123456789abcdef";
  stable_source_reference = "custom-tle";
  tle_line1 = "1 25544U";
  tle_line2 = "2 25544";
  observer_latitude_deg = finite "51.5";
  observer_longitude_deg = finite "0.0";
  observer_altitude_metres = finite "10.0";
  start_time_utc = record { is_aware = true; instant = 1_000 };
  end_time_utc = record { is_aware = true; instant = 2_000 };
  sample_interval_seconds = 10;
  maximum_samples = 50;
}

abbrev a_session : SessionEntry
a_session = record { binding_digest = a_cookie; created_monotonic = 5; expires_monotonic = 1_805 }

abbrev a_record : HandoffRecord
a_record = new_record default_limits functions an_input a_cookie 5 a_session

abbrev a_creation : HandoffCreation
a_creation = record { handoff_token = a_token; session_cookie_value = some a_cookie }

-- The store after the creation.
abbrev a_store : HandoffStore
a_store =
    (create default_limits functions an_input none 5 7 (a_cookie ∷ []) (a_token ∷ [])
      (new_store "key")).1

is_created :
    create default_limits functions an_input none 5 7
      (a_cookie ∷ [])
      (a_token ∷ [])
      (new_store "key")
    ≡ (ok a_creation, a_store)
unfolding create create_in_session create_locked store_record drop_on_error unique_token
    resolve_or_create_session submitted_session new_session create_session remove_expired
    expiry_events event push_event status_of get add is_token is_token_code session_records
    logical_size_bytes sum_of_texts utf8_length bytes_of_codes code_bytes validate_record_fields
    breaks_limit is_ascii is_checksum is_finite String-discrete
is_created = refl

is_consumed :
    (consume default_limits functions a_token (some a_cookie) 20 21 a_store).0 ≡ ok a_record
unfolding consume consume_digest consume_record is_owner live_session binding_for_valid_cookie
    is_expired create create_in_session create_locked store_record drop_on_error unique_token
    resolve_or_create_session submitted_session new_session create_session remove_expired
    expiry_events event push_event status_of get add is_token is_token_code session_records
    logical_size_bytes sum_of_texts utf8_length bytes_of_codes code_bytes validate_record_fields
    breaks_limit is_ascii is_checksum is_finite String-discrete
is_consumed = refl

Reachable-IsBounded_example :
    IsBounded default_limits functions
      (consume default_limits functions a_token none 20 21 a_store).1
Reachable-IsBounded_example = Reachable-IsBounded default_limits functions "key" (
    step (step start (created an_input none 5 7 (a_cookie ∷ []) (a_token ∷ [])))
      (consumed a_token none 20 21))

-- A store of no room: the new session is dropped again.
abbrev no_room : Limits
no_room = record default_limits { maximum_records = 0 }

has_failed :
    (create no_room functions an_input none 5 7 (a_cookie ∷ []) (a_token ∷ []) (new_store "key")).0
    ≡ err capacity_error
unfolding create create_in_session create_locked drop_on_error resolve_or_create_session
    submitted_session new_session create_session remove_expired get is_token is_token_code
has_failed = refl

create-atomic_example :
    SameTables
      (remove_expired no_room functions 5 7 (new_store "key"))
      (create no_room functions an_input none 5 7
        (a_cookie ∷ [])
        (a_token ∷ [])
        (new_store "key")).1
create-atomic_example =
    create-atomic no_room functions an_input none 5 7 (a_cookie ∷ []) (a_token ∷ [])
      (new_store "key") capacity_error refl has_failed

consume-Owned_example :
    Owned default_limits functions a_token
      (some a_cookie)
      20
      (remove_expired default_limits functions 20 21 a_store)
      a_record
consume-Owned_example =
    consume-Owned default_limits functions a_token (some a_cookie) 20 21 a_store a_record
      is_consumed

draws_other : draws default_limits functions a_token ("other" ∷ []) ≡ false
unfolding String-discrete
draws_other = refl

-- A call of another token comes in between, and a `create` that draws another token.
abbrev later_store : HandoffStore
later_store =
    (create default_limits functions an_input none 22 23 (a_cookie ∷ []) ("other" ∷ [])
      (consume default_limits functions "other" none 21 22
        (consume default_limits functions a_token (some a_cookie) 20 21 a_store).1).1).1

consume-once_example :
    (consume default_limits functions a_token (some a_cookie) 30 31 later_store).0
    ≡ err unavailable_error
consume-once_example =
    consume-once default_limits functions a_token (some a_cookie) 20 21 a_store a_record
      (some a_cookie) 30 31 is_consumed
      (Once.created (Once.consumed unchanged "other" none 21 22) an_input none 22 23 (a_cookie ∷ [])
        ("other" ∷ []) draws_other)

clear-final_example :
    (create default_limits functions an_input none 5 7
        (a_cookie ∷ [])
        (a_token ∷ [])
        (clear a_store)
      ≡ (err unavailable_error, clear a_store))
    × (consume default_limits functions a_token none 5 7 (clear a_store)
        ≡ (err unavailable_error, clear a_store))
clear-final_example =
    clear-final default_limits functions a_store an_input a_token none 5 7 (a_cookie ∷ [])
      (a_token ∷ [])

create-consume_example :
    (r : HandoffRecord) × (r.input ≡ an_input)
    × (r.expires_monotonic ≡ 5 + default_limits.handoff_ttl)
    × ((later at' : ℕ)
        → is_expired default_limits functions later r ≡ false
        → (consume default_limits functions a_token
            (cookie_after none a_creation)
            later
            at'
            a_store).0
          ≡ ok r)
create-consume_example =
    create-consume default_limits functions an_input none 5 7 (a_cookie ∷ []) (a_token ∷ [])
      (new_store "key") a_creation a_store is_created
