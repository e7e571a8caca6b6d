-- ===== src/Store/Latest.antt =====
-- internal/store/bbolt/store.go: what the backend says of the entries that a log has appended.
use mrmi_gateway.Prelude.{
  ℕ, zero, suc, ◌≤◌, ◌<◌, ◌^◌, pos, ◌≡◌, refl, ap, ◌∙◌, none, some, List, [], ◌∷◌, arith,
  if◌then◌else◌, take,
}
use mrmi_gateway.Prelude.Text.{codes_eq}
use mrmi_gateway.Audit.{StoreEntry}
use mrmi_gateway.Store.{
  Bucket, Codec, found, seq_key, put_record, also, decode_latest, audit_latest, audit_append,
}
use mrmi_gateway.Store.Keys.{before, seq_key-before}

-- The rows of a bucket, from the last key backwards, after a put.
unfoldable pub insert_row : {V : Type 0} → List ℕ → V → List (List ℕ × V) → List (List ℕ × V)
insert_row k v [] = (k, v) ∷ []
insert_row k v ((j, w) ∷ rows) =
    let rest = insert_row k v rows in
    if before j k
    then (k, v) ∷ (j, w) ∷ rows
    else if codes_eq j k
    then (k, v) ∷ rows
    else (j, w) ∷ rest

-- What bbolt and JSON are for: the cursor goes through the keys in the order of their bytes, no
-- transaction fails, and what is encoded is decoded.
pub record Works {V D : Type 0} (bucket : Bucket V D) (codec : Codec StoreEntry V) : Type 0 where
  pub healthy : (d : D) → bucket.fault d ≡ none
  pub sorted :
      (k : List ℕ) (v : V) (d : D)
      → bucket.backwards (bucket.put k v d) ≡ insert_row k v (bucket.backwards d)
  pub decoded : (e : StoreEntry) → codec.decode (codec.encode e) ≡ some e

-- Entries whose numbers grow from a bound on, and stay in uint64.
abbrev pub Rising : ℕ → List StoreEntry → Type 0
Rising bound [] = Unit
Rising bound (e ∷ es) = (bound < e.seq) × (e.seq < 2 ^ 64) × Rising e.seq es

abbrev pub newest_first : List StoreEntry → List StoreEntry → List StoreEntry
newest_first [] seen = seen
newest_first (e ∷ es) seen = newest_first es (e ∷ seen)

abbrev AtMost : ℕ → List StoreEntry → Type 0
AtMost bound [] = Unit
AtMost bound (e ∷ _) = e.seq ≤ bound

module _ {V D : Type 0} (bucket : Bucket V D) (codec : Codec StoreEntry V) where
  abbrev pub append_all : List StoreEntry → D → D
  append_all [] d = d
  append_all (e ∷ es) d = append_all es (audit_append bucket codec e d).1

  rows : List StoreEntry → List (List ℕ × V)
  rows [] = []
  rows (e ∷ es) = (seq_key e.seq, codec.encode e) ∷ rows es

  insert_row-rows :
      (bound : ℕ) (e : StoreEntry) (seen : List StoreEntry)
      → AtMost bound seen
      → bound < e.seq
      → e.seq < 2 ^ 64
      → insert_row (seq_key e.seq) (codec.encode e) (rows seen) ≡ rows (e ∷ seen)
  unfolding rows insert_row
  insert_row-rows bound e [] below above fits = refl
  insert_row-rows bound e (x ∷ seen) below above fits =
      rw (seq_key-before x.seq e.seq (omega arith) fits) refl

  audit_append-eq :
      (e : StoreEntry) (d : D)
      → Works bucket codec
      → (audit_append bucket codec e d).1 ≡ bucket.put (seq_key e.seq) (codec.encode e) d
  unfolding audit_append put_record
  audit_append-eq e d w = rw (w.healthy d, put_record) refl

  append_all-rows :
      (es : List StoreEntry) (bound : ℕ) (seen : List StoreEntry) (d : D)
      → Works bucket codec
      → AtMost bound seen
      → Rising bound es
      → bucket.backwards d ≡ rows seen
      → bucket.backwards (append_all es d) ≡ rows (newest_first es seen)
  append_all-rows [] bound seen d w below rising h = h
  append_all-rows (e ∷ es) bound seen d w below rising h =
      append_all-rows es e.seq (e ∷ seen) (audit_append bucket codec e d).1 w (omega arith) rising.2
        (ap bucket.backwards (audit_append-eq e d w)
          ∙ w.sorted (seq_key e.seq) (codec.encode e) d
          ∙ ap (insert_row (seq_key e.seq) (codec.encode e)) h
          ∙ insert_row-rows bound e seen below rising.0 rising.1)

  decode_latest-rows :
      (n : ℕ) (es : List StoreEntry)
      → Works bucket codec
      → decode_latest bucket codec n (rows es) ≡ found (take n es)
  unfolding decode_latest rows also
  decode_latest-rows zero es w = refl
  decode_latest-rows (suc n) [] w = refl
  decode_latest-rows (suc n) (e ∷ es) w = rw (w.decoded e, decode_latest-rows n es w) refl

  -- After entries with growing numbers below 2^64 are appended to an empty bucket, `AuditLatest`
  -- returns the last n of them, newest first, and all of them if there are fewer. The bucket is taken
  -- to be sorted by the bytes of its keys, its transactions to succeed, and what is encoded to be
  -- decoded.
  pub audit_latest-append_all :
      (es : List StoreEntry) (n : ℕ) (d : D)
      → Works bucket codec
      → Rising 0 es
      → bucket.backwards d ≡ []
      → audit_latest bucket codec (pos n) (append_all es d) ≡ found (take n (newest_first es []))
  unfolding audit_latest rows
  audit_latest-append_all es n d w rising empty =
      rw (w.healthy (append_all es d), audit_latest, append_all-rows es 0 [] d w tt rising empty)
        (decode_latest-rows n (newest_first es []) w)
