-- ===== src/Examples/Csrf.antt =====
-- The page CSRF theorems at a page session of the authority workbench.
use orbit_mind_living_q_core.Common.{
  is_unique, map, ◌≡◌, refl, String, true, false, none, some, [], ◌∷◌, ok, err, arith,
  String-discrete, nat_eq, string_eq, ◌==◌, get, add, put,
}
use native.Mathlib.Decide.{ℕ_discrete}
use orbit_mind_living_q_core.Handoff.Contracts.{is_token_code, is_token}
use orbit_mind_living_q_core.Csrf.Contracts.{
  PageCsrfScope-discrete, authority_workbench, authority_workbench_policy, camera_policy, rejected,
  IssuedPageSession, PageCsrfProtocolAuthority, ProtocolPreflight, Registry, Functions,
}
use orbit_mind_living_q_core.Csrf.Registry.{
  is_only, policy_of, policy_for_protocol, scope_records, remove_expired, page_binding,
  preflight_integrity, drop_previous, issue_record, issue, validate_protocol_preflight,
  rotate_record, rotate_binding, accepts_preflight, validate_and_rotate,
}
use orbit_mind_living_q_core.Csrf.Rotation.{Accepted, validate_and_rotate-Accepted}
use orbit_mind_living_q_core.Csrf.Sessions.{issue-rotate}
use orbit_mind_living_q_core.Csrf.Once
use orbit_mind_living_q_core.Csrf.Once.{unchanged, validate_and_rotate-once}
use orbit_mind_living_q_core.Csrf.Bounds.{
  IsBounded, start, step, issued, rotated, Reachable-sessions_bound,
}

-- Stand-ins for the digests and texts.
abbrev functions : Functions
functions = record {
  hmac = λ key parts. elim parts [
    | [] ↦ key
    | _ ∷ rest ↦ elim rest [ [] ↦ key | second ∷ _ ↦ second ]
  ];
  sha256 = λ token. token;
  host_of_port = λ port. "127.0.0.1:8000";
  origin_of_host = λ host. "http://127.0.0.1:8000";
  is_forwarded_header = λ name. false;
}

abbrev registry : Registry
registry = record {
  policies = authority_workbench_policy ∷ camera_policy ∷ [];
  issuer = 1;
  process_binding_key = "key";
  records = [];
  closed = false;
}

abbrev page_id : String
page_id = "page-idAAAAAAAAAAAAAAAAAAAAAAAAAAAAAAAAAAAA"

abbrev first_token : String
first_token = "token-1AAAAAAAAAAAAAAAAAAAAAAAAAAAAAAAAAAAA"

abbrev second_token : String
second_token = "token-2AAAAAAAAAAAAAAAAAAAAAAAAAAAAAAAAAAAA"

abbrev request : PageCsrfProtocolAuthority
request = record {
  scope = authority_workbench;
  method = "POST";
  route = "/authority/workbench/requests";
  scheme = "http";
  host_values = "127.0.0.1:8000" ∷ [];
  origin_values = "http://127.0.0.1:8000" ∷ [];
  sec_fetch_site_values = "same-origin" ∷ [];
  forwarded_header_names = [];
  selected_port = 8_000;
}

abbrev session : IssuedPageSession
session = record {
  page_session_id = page_id;
  csrf_token = first_token;
  issued_at = 10;
  expires_at = 910;
}

abbrev with_session : Registry
with_session = (issue functions authority_workbench none 10 page_id first_token registry).1

abbrev preflight : ProtocolPreflight
preflight = record {
  issuer = 1;
  scope = authority_workbench;
  method = "POST";
  route = "/authority/workbench/requests";
  expected_host = "127.0.0.1:8000";
  integrity = "POST";
}

is_issued :
    issue functions authority_workbench none 10 page_id first_token registry
    ≡ (ok session, with_session)
unfolding issue issue_record drop_previous remove_expired policy_of authority_workbench_policy
    camera_policy page_binding is_token is_token_code scope_records get add String-discrete
    PageCsrfScope-discrete
is_issued = refl

is_accepted : validate_protocol_preflight functions request with_session ≡ ok preflight
unfolding validate_protocol_preflight policy_for_protocol is_only preflight_integrity issue
    issue_record drop_previous remove_expired policy_of authority_workbench_policy camera_policy
    page_binding is_token is_token_code scope_records get add String-discrete PageCsrfScope-discrete
is_accepted = refl

valid_next : is_token second_token ≡ true
unfolding is_token is_token_code
valid_next = refl

other_digest : (second_token == first_token) ≡ false
unfolding String-discrete
other_digest = refl

issue-rotate_example :
    (validate_and_rotate functions preflight authority_workbench "/authority/workbench/requests"
      (some page_id)
      (first_token ∷ [])
      20
      second_token
      with_session).0
    ≡ ok (record { csrf_token = second_token; generation = 2 })
issue-rotate_example =
    issue-rotate functions request none 10 page_id first_token registry session with_session
      preflight 20 second_token is_issued is_accepted (omega arith) valid_next other_digest

is_rotated :
    (validate_and_rotate functions preflight authority_workbench "/authority/workbench/requests"
      (some page_id)
      (first_token ∷ [])
      20
      second_token
      with_session).0
    ≡ ok (record { csrf_token = second_token; generation = 2 })
unfolding validate_and_rotate accepts_preflight rotate_binding rotate_record put
    validate_protocol_preflight policy_for_protocol is_only preflight_integrity issue issue_record
    drop_previous remove_expired policy_of authority_workbench_policy camera_policy page_binding
    is_token is_token_code scope_records get add String-discrete PageCsrfScope-discrete ℕ_discrete
is_rotated = refl

validate_and_rotate-Accepted_example :
    Accepted functions preflight authority_workbench "/authority/workbench/requests"
      (some page_id)
      (first_token ∷ [])
      20
      with_session
validate_and_rotate-Accepted_example =
    validate_and_rotate-Accepted functions preflight authority_workbench
      "/authority/workbench/requests" (some page_id) (first_token ∷ []) 20 second_token with_session
      (record { csrf_token = second_token; generation = 2 }) is_rotated

-- A token that another session and another rotation get.
abbrev third_token : String
third_token = "third-CCCCCCCCCCCCCCCCCCCCCCCCCCCCCCCCCCCCC"

other_token : (third_token == first_token) ≡ false
unfolding String-discrete
other_token = refl

abbrev rotated_registry : Registry
rotated_registry =
    (validate_and_rotate functions preflight authority_workbench "/authority/workbench/requests"
      (some page_id) (first_token ∷ []) 20 second_token with_session).1

abbrev later_registry : Registry
later_registry =
    (validate_and_rotate functions preflight authority_workbench "/authority/workbench/requests"
      (some page_id) (second_token ∷ []) 25 third_token
      (issue functions authority_workbench none 22 "page-2" third_token rotated_registry).1).1

one_session : is_unique (map (λ e. e.0) with_session.records) ≡ true
unfolding issue issue_record policy_of remove_expired drop_previous page_binding scope_records
    is_token is_token_code add get authority_workbench_policy String-discrete PageCsrfScope-discrete
    ℕ_discrete
one_session = refl

validate_and_rotate-once_example :
    (validate_and_rotate functions preflight authority_workbench "/authority/workbench/requests"
      (some page_id)
      (first_token ∷ [])
      30
      first_token
      later_registry).0
    ≡ err rejected
validate_and_rotate-once_example =
    validate_and_rotate-once functions preflight preflight authority_workbench
      "/authority/workbench/requests" "/authority/workbench/requests" page_id first_token 20 30
      second_token first_token with_session (record { csrf_token = second_token; generation = 2 })
      one_session is_rotated
      (Once.rotated
        (Once.issued unchanged authority_workbench none 22 "page-2" third_token other_token)
        preflight authority_workbench "/authority/workbench/requests" (some page_id)
        (second_token ∷ []) 25 third_token other_token)

Reachable-sessions_bound_example :
    IsBounded
      (validate_and_rotate functions preflight authority_workbench "/authority/workbench/requests"
        (some page_id)
        (first_token ∷ [])
        20
        second_token
        with_session).1.records
Reachable-sessions_bound_example = Reachable-sessions_bound functions refl (
    step (step start (issued authority_workbench none 10 page_id first_token)) (
      rotated preflight authority_workbench "/authority/workbench/requests" (some page_id)
        (first_token ∷ []) 20 second_token))
