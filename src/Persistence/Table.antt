-- ===== src/Persistence/Table.antt =====
-- One evidence table as the repositories use it (authority_repository.py, admission_repository.py):
-- rows found by owner and idempotency key or by owner and id, replay resolution, reads that verify
-- the stored identity, and the append. SQLAlchemy's session is a list of rows in insertion order,
-- and one writer at a time is modelled: the recovery from a concurrent insert is not.
use orbit_mind_living_q_core.Common.{
  ℕ, ltb, str_leb, sorted_by, keep, String, Bool, true, false, ◌&&◌, Option, none, some, List, [],
  ◌∷◌, ◌++◌, if◌then◌else◌, string_eq, ◌==◌, ◌!=◌, Result, ok, err, ◌>>=◌,
}

-- The errors that a repository raises, and the validation error of a model that it builds.
pub data RepositoryError : Type 0 where
  idempotency_conflict causality record_corrupt invalid_model : RepositoryError

pub data Disposition : Type 0 where
  created replayed : Disposition

-- The columns that the queries read. `link_id` is the foreign key that a list is filtered by
-- (`request_id` or `grant_id`) and `ordered_at` the time that it is ordered by.
-- `replay_key` is the column in which a replay must agree: `record_identity` in the authority
-- tables, `proposal_fingerprint` in those of admissions and gateway decisions. `payload` is what the stored JSON parses to, if it parses.
pub record Row (A : Type 0) : Type 0 where
  pub owner_id : String
  pub record_id : String
  pub idempotency_key : String
  pub record_identity : String
  pub replay_key : String
  pub link_id : Option String
  pub ordered_at : ℕ
  pub payload : Option A

-- What a table is made for: the key columns of a record, and the digest of its canonical JSON.
-- Pydantic's serialization and SHA-256 are `digest`.
pub record Schema (A : Type 0) : Type 0 where
  pub owner_of : A → String
  pub id_of : A → String
  pub link_of : A → Option String
  pub time_of : A → ℕ
  pub digest : A → String
  pub replay_of : A → String

unfoldable pub is_link : String → Option String → Bool
is_link link none = false
is_link link (some l) = l == link

module _ {A : Type 0} where
  -- `_existing_*(owner_id, idempotency_key)`, `_by_idempotency`.
  unfoldable pub by_key : String → String → List (Row A) → Option (Row A)
  by_key owner key [] = none
  by_key owner key (r ∷ rows) =
      if (r.owner_id == owner) && (r.idempotency_key == key) then some r else by_key owner key rows

  -- `_existing_*_by_id(owner_id, id)`, `_by_id`.
  unfoldable pub by_id : String → String → List (Row A) → Option (Row A)
  by_id owner id [] = none
  by_id owner id (r ∷ rows) =
      if (r.owner_id == owner) && (r.record_id == id) then some r else by_id owner id rows

  -- `_resolve_replay`: the row found by key, then the one by id; the
  -- first that is there must agree with the new record.
  unfoldable pub resolve_replay :
      Option (Row A) → Option (Row A) → String → Result RepositoryError (Option (Row A))
  resolve_replay (some r) by_id key =
      if r.replay_key != key then err idempotency_conflict else ok (some r)
  resolve_replay none (some r) key =
      if r.replay_key != key then err idempotency_conflict else ok (some r)
  resolve_replay none none key = ok none

  -- `ORDER BY` time, id.
  abbrev pub row_leb : Row A → Row A → Bool
  row_leb r t =
      if ltb r.ordered_at t.ordered_at
      then true
      else if ltb t.ordered_at r.ordered_at
      then false
      else str_leb r.record_id t.record_id

  -- The rows of an owner with a foreign key, by time and id.
  abbrev pub linked_rows : String → String → List (Row A) → List (Row A)
  linked_rows owner link rows =
      sorted_by row_leb (keep (λ r. (r.owner_id == owner) && is_link link r.link_id) rows)

  module _ (schema : Schema A) where
    open schema use {owner_of, id_of, link_of, time_of, digest, replay_of}

    -- `_parse`: the payload parses and has the stored identity.
    unfoldable pub to_domain : Row A → Result RepositoryError A
    to_domain r = elim r.payload [
      | none ↦ err record_corrupt
      | some a ↦ if digest a != r.record_identity then err record_corrupt else ok a
    ]

    -- `get_*`: the record with the id, `None` if there is none.
    unfoldable pub get_by_id : String → String → List (Row A) → Result RepositoryError (Option A)
    get_by_id owner id rows = elim (by_id owner id rows) [
      | none ↦ ok none
      | some r ↦ do a ← to_domain r; ok (some a)
    ]

    unfoldable pub all_to_domain : List (Row A) → Result RepositoryError (List A)
    all_to_domain [] = ok []
    all_to_domain (r ∷ rows) = do a ← to_domain r; rest ← all_to_domain rows; ok (a ∷ rest)

    -- `list_*_for_*`: the rows of the owner with the foreign key, by time and id.
    unfoldable pub list_linked : String → String → List (Row A) → Result RepositoryError (List A)
    list_linked owner link rows = all_to_domain (linked_rows owner link rows)

    unfoldable pub new_row : A → String → Row A
    new_row a key = record {
      owner_id = owner_of a;
      record_id = id_of a;
      idempotency_key = key;
      record_identity = digest a;
      replay_key = replay_of a;
      link_id = link_of a;
      ordered_at = time_of a;
      payload = some a;
    }

    -- The common shape of the `append_*` methods: a replay returns the stored record, and a new
    -- record is inserted if the causality `check` of its table passes.
    unfoldable pub append :
        Result RepositoryError (Unit {0})
        → A
        → String
        → List (Row A)
        → Result RepositoryError (A × Disposition × List (Row A))
    append check a key rows = do
      resolved ←
          resolve_replay (by_key (owner_of a) key rows) (by_id (owner_of a) (id_of a) rows)
            (replay_of a)
      elim resolved [
        | some r ↦ do stored ← to_domain r; ok (stored, replayed, rows)
        | none ↦ do
          _ ← check
          stored ← to_domain (new_row a key)
          ok (stored, created, rows ++ new_row a key ∷ [])
      ]
