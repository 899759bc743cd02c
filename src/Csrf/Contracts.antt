-- ===== src/Csrf/Contracts.antt =====
-- src/orbitmind/core/page_csrf.py: the values of the page CSRF registry, and the policies of its two
-- scopes (src/orbitmind/camera/csrf.py has the camera's). The tests on the classes of arguments are
-- the types of this model. A clock reading is a number of seconds.
use orbit_mind_living_q_core.Common.{ℕ, String, Bool, List, [], ◌∷◌, HasEq, string_eq, nat_eq, Dict}

pub data PageCsrfScope : Type 0 where
  camera authority_workbench : PageCsrfScope

unfoldable pub PageCsrfScope-discrete : Discrete PageCsrfScope
PageCsrfScope-discrete = hlevel

instance abbrev pub scope_eq : HasEq PageCsrfScope
scope_eq = record { discrete = PageCsrfScope-discrete }

-- `PageCsrfPolicy`; a route is its text, and a route of another class has no method.
pub record PageCsrfPolicy : Type 0 where
  pub scope : PageCsrfScope
  pub allowed_methods : Dict String
  pub page_binding_domain : String
  pub protocol_preflight_domain : String

unfoldable pub authority_workbench_policy : PageCsrfPolicy
authority_workbench_policy = record {
  scope = authority_workbench;
  allowed_methods =
      ("/authority/workbench/requests", "POST")
      ∷ ("/authority/workbench/requests/{request_id}/decide", "POST")
      ∷ ("/authority/workbench/requests/{request_id}/issue-grant", "POST")
      ∷ ("/authority/workbench/grants/{grant_id}/revoke", "POST")
      ∷ ("/authority/workbench/grants/{grant_id}/evaluate", "POST")
      ∷ [];
  page_binding_domain = "orbitmind-authority-workbench-page-session-v1";
  protocol_preflight_domain = "orbitmind-authority-workbench-protocol-preflight-v1";
}

unfoldable pub camera_policy : PageCsrfPolicy
camera_policy = record {
  scope = camera;
  allowed_methods =
      ("/workbench/camera/api/sessions", "POST")
      ∷ ("/workbench/camera/api/sessions/{session_id}", "DELETE")
      ∷ ("/workbench/camera/api/sessions/{session_id}/proposal", "POST")
      ∷ [];
  page_binding_domain = "orbitmind-camera-page-session-v1";
  protocol_preflight_domain = "orbitmind-camera-protocol-preflight-v1";
}

pub data CsrfError : Type 0 where
  rejected session_unavailable : CsrfError

pub record IssuedPageSession : Type 0 where
  pub page_session_id : String
  pub csrf_token : String
  pub issued_at : ℕ
  pub expires_at : ℕ

pub record PageCsrfProtocolAuthority : Type 0 where
  pub scope : PageCsrfScope
  pub method : String
  pub route : String
  pub scheme : String
  pub host_values : List String
  pub origin_values : List String
  pub sec_fetch_site_values : List String
  pub forwarded_header_names : List String
  pub selected_port : ℕ

-- `_PageCsrfProtocolPreflight`; an issuer is the identity of a registry.
pub record ProtocolPreflight : Type 0 where
  pub issuer : ℕ
  pub scope : PageCsrfScope
  pub method : String
  pub route : String
  pub expected_host : String
  pub integrity : String

pub record PageCsrfRotation : Type 0 where
  pub csrf_token : String
  pub generation : ℕ

pub record PageSessionRecord : Type 0 where
  pub scope : PageCsrfScope
  pub page_binding_digest : String
  pub csrf_token_digest : String
  pub generation : ℕ
  pub issued_at : ℕ
  pub expires_at : ℕ
  pub active : Bool

pub record Registry : Type 0 where
  pub policies : List PageCsrfPolicy
  pub issuer : ℕ
  pub process_binding_key : String
  pub records : Dict PageSessionRecord
  pub closed : Bool

-- What the registry calls: HMAC-SHA-256 of the joined parts, the digest of a token, the texts
-- `127.0.0.1:{port}` and `http://{host}`, and the test on the lower-cased name of a header.
pub record Functions : Type 0 where
  pub hmac : String → List String → String
  pub sha256 : String → String
  pub host_of_port : ℕ → String
  pub origin_of_host : String → String
  pub is_forwarded_header : String → Bool
