-- ===== src/Store.antt =====
-- internal/store/bbolt/store.go: the backend of a node in a bbolt database. A bucket of the database is
-- an interface over a state D: values under byte keys, a cursor from the last key backwards, the
-- entries from the first key on, and the error of a transaction that cannot begin (one that begins is
-- taken to commit). JSON is a pair of functions; encoding one of these records does not fail.
pub mod Keys
pub mod Latest
mod Examples
use mrmi_gateway.Prelude.{
  ℕ, zero, suc, ◌/◌, ◌%◌, ℤ, pos, negsuc, ◌+ℤ◌, ltb_ℤ, String, Bool, true, false, Option, none,
  some, List, [], ◌∷◌, ◌++◌, if◌then◌else◌,
}
use mrmi_gateway.Audit.{StoreEntry}

pub record Bucket (V D : Type 0) : Type 0 where
  pub get : List ℕ → D → Option V
  pub put : List ℕ → V → D → D
  pub delete : List ℕ → D → D
  pub backwards : D → List (List ℕ × V)
  pub for_each : D → List (List ℕ × V)
  pub fault : D → Option String

pub record Codec (A V : Type 0) : Type 0 where
  pub encode : A → V
  pub decode : V → Option A

-- An error, or what is read.
pub data Read (A : Type 0) : Type 0 where
  unreadable : Read A
  found : A → Read A

-- The last `width` bytes of a number, the high byte first (binary.BigEndian.PutUint64 for eight).
unfoldable pub big_endian : ℕ → ℕ → List ℕ
big_endian zero n = []
big_endian (suc width) n = big_endian width (n / 256) ++ n % 256 ∷ []

-- seqKey
unfoldable pub seq_key : ℕ → List ℕ
unfolding big_endian
seq_key seq = big_endian 8 seq

module _ {A V D : Type 0} (bucket : Bucket V D) (codec : Codec A V) where
  -- DLQPush, AuditAppend and CRLPut: a record under its key.
  unfoldable pub put_record : List ℕ → A → D → Option String × D
  put_record key a d = elim (bucket.fault d) [
    | some e ↦ (some e, d)
    | none ↦ (none, bucket.put key (codec.encode a) d)
  ]

  pub also : A → Read (List A) → Read (List A)
  also a unreadable = unreadable
  also a (found rest) = found (a ∷ rest)

  unfoldable pub decode_all : List (List ℕ × V) → Read (List A)
  unfolding also
  decode_all [] = found []
  decode_all ((_, v) ∷ rows) =
      let rest = decode_all rows in
      elim (codec.decode v) [ none ↦ unreadable | some a ↦ also a rest ]

  -- DLQList and CRLList
  unfoldable pub list_records : D → Read (List A)
  unfolding decode_all
  list_records d = elim (bucket.fault d) [
    | some _ ↦ unreadable
    | none ↦ decode_all (bucket.for_each d)
  ]

  read_value : Option V → Read (Option A)
  read_value none = found none
  read_value (some v) = elim (codec.decode v) [ none ↦ unreadable | some a ↦ found (some a) ]

  -- CRLGet
  unfoldable pub get_record : List ℕ → D → Read (Option A)
  unfolding read_value
  get_record key d = elim (bucket.fault d) [
    | some _ ↦ unreadable
    | none ↦ read_value (bucket.get key d)
  ]

  -- DLQDelete
  unfoldable pub delete_record : List ℕ → D → Option String × D
  delete_record key d = elim (bucket.fault d) [
    | some e ↦ (some e, d)
    | none ↦ (none, bucket.delete key d)
  ]

  -- The loop of `AuditLatest`, over what the cursor goes through.
  unfoldable pub decode_latest : ℕ → List (List ℕ × V) → Read (List A)
  unfolding also
  decode_latest zero rows = found []
  decode_latest (suc n) [] = found []
  decode_latest (suc n) ((_, v) ∷ rows) =
      let rest = decode_latest n rows in
      elim (codec.decode v) [ none ↦ unreadable | some a ↦ also a rest ]

  at_most : ℤ → ℕ
  at_most (pos n) = n
  at_most (negsuc n) = 0

  -- AuditLatest
  unfoldable pub audit_latest : ℤ → D → Read (List A)
  unfolding decode_latest at_most
  audit_latest n d = elim (bucket.fault d) [
    | some _ ↦ unreadable
    | none ↦ decode_latest (at_most n) (bucket.backwards d)
  ]

-- AuditAppend
unfoldable pub audit_append :
    {V D : Type 0} → Bucket V D → Codec StoreEntry V → StoreEntry → D → Option String × D
unfolding put_record seq_key
audit_append bucket codec e d = put_record bucket codec (seq_key e.seq) e d

is_live : ℤ → Option ℤ → Bool
is_live now none = false
is_live now (some expires) = ltb_ℤ now expires

-- Deduped; the bucket's values are the instants that the code writes as eight bytes.
unfoldable pub deduped : {D : Type 0} → Bucket ℤ D → List ℕ → ℤ → ℤ → D → (Bool × Option String) × D
unfolding is_live
deduped bucket key ttl now d = elim (bucket.fault d) [
  | some e ↦ ((false, some e), d)
  | none ↦
      if is_live now (bucket.get key d)
      then ((true, none), d)
      else ((false, none), bucket.put key (now +ℤ ttl) d)
]
