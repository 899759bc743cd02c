-- ===== src/Persistence/TableLaws.antt =====
-- What the appends of an evidence table keep: intact rows, unique keys, and every earlier row.
use orbit_mind_living_q_core.Common.{
  ◌≡◌, refl, String, ◌&&◌, none, some, List, [], ◌∷◌, ◌++◌, inl, inr, string_eq, ◌==◌, Result, ok,
  All, arith, Option-cases, Bool-cases, ap, sym, ◌∙◌, subst,
}
use orbit_mind_living_q_core.Persistence.Table.{
  Disposition, RepositoryError, Row, Schema, by_key, by_id, resolve_replay, to_domain, get_by_id,
  new_row, append,
}

module _ {A : Type 0} where
  pub by_key-append_found :
      (o k : String) (rows more : List (Row A)) (r : Row A)
      → by_key o k rows ≡ some r
      → by_key o k (rows ++ more) ≡ some r
  unfolding by_key
  by_key-append_found o k [] more r h = cc
  by_key-append_found o k (x ∷ rows) more r h = ground (arith, by_key-append_found o k rows more r)

  -- A row found by its id is found after any append.
  by_id-append_found :
      (o i : String) (rows more : List (Row A)) (r : Row A)
      → by_id o i rows ≡ some r
      → by_id o i (rows ++ more) ≡ some r
  unfolding by_id
  by_id-append_found o i [] more r h = cc
  by_id-append_found o i (x ∷ rows) more r h = ground (arith, by_id-append_found o i rows more r)

  pub by_key-append_new :
      (o k : String) (rows : List (Row A)) (r : Row A)
      → by_key o k rows ≡ none
      → r.owner_id ≡ o
      → r.idempotency_key ≡ k
      → by_key o k (rows ++ r ∷ []) ≡ some r
  unfolding by_key
  by_key-append_new o k [] r h e f = ground arith
  by_key-append_new o k (x ∷ rows) r h e f = ground (arith, by_key-append_new o k rows r)

  module _ (schema : Schema A) where
    open schema use {owner_of, id_of, replay_of}

    pub to_domain-new_row : (a : A) (key : String) → to_domain schema (new_row schema a key) ≡ ok a
    unfolding to_domain new_row
    to_domain-new_row a key = ground arith

    -- The row holds a record of the property, under the columns that `new_row` gives it.
    pub record IsIntact {κ} (P : A → Type κ) (r : Row A) : Type κ where
      pub content : A
      pub reads : to_domain schema r ≡ ok content
      pub owner : r.owner_id ≡ owner_of content
      pub id : r.record_id ≡ id_of content
      pub property : P content

    pub new_row-IsIntact {κ} :
        {P : A → Type κ} (a : A) (key : String) → P a → IsIntact P (new_row schema a key)
    unfolding new_row to_domain
    new_row-IsIntact a key h = record {
      content = a;
      reads = ground arith;
      owner = refl;
      id = refl;
      property = h;
    }

    pub All-append_new {κ} :
        (P : A → Type κ) (a : A) (key : String) (rows : List (Row A))
        → All (IsIntact P) rows
        → P a
        → All (IsIntact P) (rows ++ new_row schema a key ∷ [])
    All-append_new P a key [] h p = (new_row-IsIntact a key p, tt)
    All-append_new P a key (r ∷ rows) h p = (h.0, All-append_new P a key rows h.1 p)

    pub All-weaken {κ μ} :
        (P : A → Type κ) (Q : A → Type μ) (rows : List (Row A))
        → ((a : A) → P a → Q a)
        → All (IsIntact P) rows
        → All (IsIntact Q) rows
    All-weaken P Q [] f h = tt
    All-weaken P Q (r ∷ rows) f h = (
      record {
        content = h.0.content;
        reads = h.0.reads;
        owner = h.0.owner;
        id = h.0.id;
        property = f h.0.content h.0.property;
      },
      All-weaken P Q rows f h.1,
    )

    by_id-found {κ} :
        (P : A → Type κ) (o i : String) (rows : List (Row A)) (r : Row A)
        → All (IsIntact P) rows
        → by_id o i rows ≡ some r
        → IsIntact P r × (r.owner_id ≡ o) × (r.record_id ≡ i)
    unfolding by_id
    by_id-found P o i [] r h e = cc
    by_id-found P o i (x ∷ rows) r h e =
        elim (Bool-cases ((x.owner_id == o) && (x.record_id == i))) [
          | inl hit ↦
              let same : x ≡ r = ground arith in
              (subst (IsIntact P) same h.0, ground arith, ground arith)
          | inr miss ↦ by_id-found P o i rows r h.1 (rw miss at e)
        ]

    -- What a read by id returns has the property, and the owner and the id that were asked for.
    pub get_by_id-found {κ} :
        (P : A → Type κ) (o i : String) (a : A) (rows : List (Row A))
        → All (IsIntact P) rows
        → get_by_id schema o i rows ≡ ok (some a)
        → P a × (owner_of a ≡ o) × (id_of a ≡ i)
    unfolding get_by_id
    get_by_id-found P o i a rows h e = elim (Option-cases (by_id o i rows)) [
      | inl missing ↦ absurd (ground arith)
      | inr (r, found) ↦
          let (intact, owner, id) = by_id-found P o i rows r h found in
          let reads = intact.reads in
          let same : intact.content ≡ a = ground arith in
          (
            subst P same intact.property,
            ap owner_of (sym same) ∙ sym intact.owner ∙ owner,
            ap id_of (sym same) ∙ sym intact.id ∙ id,
          )
    ]

    -- A row found by its id is read again after an append.
    pub get_by_id-append :
        (o i : String) (a : A) (rows more : List (Row A))
        → get_by_id schema o i rows ≡ ok (some a)
        → get_by_id schema o i (rows ++ more) ≡ ok (some a)
    unfolding get_by_id
    get_by_id-append o i a rows more e = elim (Option-cases (by_id o i rows)) [
      | inl missing ↦ absurd (ground arith)
      | inr (r, found) ↦ ground (arith, by_id-append_found o i rows more r found)
    ]

    append_replay :
        (check : Result RepositoryError (Unit {0})) (a b : A) (key : String) (rows : List (Row A))
        (r : Row A)
        → resolve_replay
            (by_key (owner_of a) key rows)
            (by_id (owner_of a) (id_of a) rows)
            (replay_of a)
          ≡ ok (some r)
        → to_domain schema r ≡ ok b
        → append schema check a key rows ≡ ok (b, Disposition.replayed, rows)
    unfolding append
    append_replay check a b key rows r found read = rw (found, read)

    resolve_new :
        (a : A) (key : String) (rows : List (Row A))
        → by_key (owner_of a) key rows ≡ none
        → let rows' = rows ++ new_row schema a key ∷ [] in
          resolve_replay
            (by_key (owner_of a) key rows')
            (by_id (owner_of a) (id_of a) rows')
            (replay_of a)
          ≡ ok (some (new_row schema a key))
    unfolding resolve_replay new_row
    resolve_new a key rows new =
        ground (arith, by_key-append_new (owner_of a) key rows (new_row schema a key) new refl refl)

    -- How an append that succeeds has ended: a replay of a stored row, or a new last row.
    pub data Appended (check : Result RepositoryError (Unit {0})) (a : A) (key : String)
        (rows : List (Row A)) (b : A) (rows' : List (Row A)) : Type 0 where
      replayed :
          (r : Row A)
          → resolve_replay
              (by_key (owner_of a) key rows)
              (by_id (owner_of a) (id_of a) rows)
              (replay_of a)
            ≡ ok (some r)
          → to_domain schema r ≡ ok b
          → rows' ≡ rows
          → Appended check a key rows b rows'
      inserted :
          by_key (owner_of a) key rows ≡ none
          → by_id (owner_of a) (id_of a) rows ≡ none
          → check ≡ ok tt
          → b ≡ a
          → rows' ≡ rows ++ new_row schema a key ∷ []
          → Appended check a key rows b rows'

    pub append-Appended :
        (check : Result RepositoryError (Unit {0})) (a b : A) (d : Disposition) (key : String)
        (rows rows' : List (Row A))
        → append schema check a key rows ≡ ok (b, d, rows')
        → Appended check a key rows b rows'
    unfolding append resolve_replay
    append-Appended check a b d key rows rows' h =
        elim (Option-cases (by_key (owner_of a) key rows)) [
          | inr (r, e) ↦ replayed r (ground arith) (ground arith) (ground arith)
          | inl e ↦ elim (Option-cases (by_id (owner_of a) (id_of a) rows)) [
            | inr (r, f) ↦ replayed r (ground arith) (ground arith) (ground arith)
            | inl f ↦
                inserted e f (ground arith) (ground (arith, to_domain-new_row a key))
                  (ground (arith, to_domain-new_row a key))
          ]
        ]

    -- A second append of the same record under the same key, whatever its check then says,
    -- returns the same record and changes nothing.
    pub append-append :
        (check check' : Result RepositoryError (Unit {0})) (a b : A) (d : Disposition)
        (key : String) (rows rows' : List (Row A))
        → append schema check a key rows ≡ ok (b, d, rows')
        → append schema check' a key rows' ≡ ok (b, Disposition.replayed, rows')
    append-append check check' a b d key rows rows' h =
        again (append-Appended check a b d key rows rows' h)
      where
        again :
            Appended check a key rows b rows'
            → append schema check' a key rows' ≡ ok (b, Disposition.replayed, rows')
        again (replayed r found read same) =
            append_replay check' a b key rows' r (rw same found) read
        again (inserted new _ _ e same) =
            append_replay check' a b key rows' (new_row schema a key)
              (rw same (resolve_new a key rows new)) (rw e (to_domain-new_row a key))

    -- An append that created a row: the key was free, and the record and its row are new.
    pub append-created :
        (check : Result RepositoryError (Unit {0})) (a b : A) (key : String)
        (rows rows' : List (Row A))
        → append schema check a key rows ≡ ok (b, Disposition.created, rows')
        → (by_key (owner_of a) key rows ≡ none)
          × (b ≡ a)
          × (rows' ≡ rows ++ new_row schema a key ∷ [])
    unfolding append resolve_replay
    append-created check a b key rows rows' h = elim (Option-cases (by_key (owner_of a) key rows)) [
      | inr (r, e) ↦ absurd (ground arith)
      | inl e ↦ elim (Option-cases (by_id (owner_of a) (id_of a) rows)) [
        | inr (r, f) ↦ absurd (ground arith)
        | inl f ↦ let read = to_domain-new_row a key in (e, ground arith, ground arith)
      ]
    ]
