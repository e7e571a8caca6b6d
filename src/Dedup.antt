-- ===== src/Dedup.antt =====
-- internal/dedup/index.go: idempotency keys with an expiry, in 16 shards. The hash of the standard
-- library's hash/fnv, a function from keys to numbers, is a parameter; `now` is the instant that
-- time.Now() returns in the call.
pub mod Laws
pub mod Window
mod Examples
use mrmi_gateway.Prelude.{
  ℕ, ◌%◌, ◌+◌, ℤ, ◌+ℤ◌, ltb_ℤ, String, Bool, true, false, not, Option, none, some, List, [], ◌∷◌,
  map, replicate, get_or, set, if◌then◌else◌,
}
use mrmi_gateway.Prelude.Map
use mrmi_gateway.Prelude.Map.{Map}

abbrev pub num_shards : ℕ
num_shards = 16

-- key → the instant at which it expires
abbrev pub Shard : Type 0
Shard = Map ℤ

pub record Index : Type 0 where
  pub shards : List Shard
  pub ttl : ℤ

-- dedup.New
unfoldable pub new : ℤ → Index
new ttl = record { shards = replicate num_shards []; ttl = ttl }

unfoldable pub live : Option ℤ → ℤ → Bool
live none now = false
live (some exp) now = ltb_ℤ now exp

-- The critical section of `SeenOrAdd` and `SeenOrAddWithTTL` on the shard of the key.
unfoldable pub seen_or_add_in : Shard → String → ℤ → ℤ → Bool × Shard
seen_or_add_in s key ttl now =
    if live (Map.lookup key s) now then (true, s) else (false, Map.insert key (now +ℤ ttl) s)

-- The loop body of `Purge`: an entry stays unless now is after its expiry.
unfoldable pub purge_shard : ℤ → Shard → Shard
purge_shard now = Map.retain (λ _ exp. not (ltb_ℤ exp now))

-- Index.Purge
unfoldable pub purge : ℤ → Index → Index
unfolding purge_shard
purge now idx = record idx { shards = map (purge_shard now) idx.shards }

count_live : ℤ → Shard → ℕ
count_live now [] = 0
count_live now ((_, exp) ∷ s) = (if ltb_ℤ now exp then 1 else 0) + count_live now s

count_shards : ℤ → List Shard → ℕ
unfolding count_live
count_shards now [] = 0
count_shards now (s ∷ rest) = count_live now s + count_shards now rest

-- Index.Len
unfoldable pub len : ℤ → Index → ℕ
unfolding count_shards
len now idx = count_shards now idx.shards

module _ (sum32 : String → ℕ) where
  -- Index.shardFor
  unfoldable pub shard_for : String → ℕ
  shard_for key = sum32 key % num_shards

  -- Index.SeenOrAddWithTTL
  unfoldable pub seen_or_add_with_ttl : String → ℤ → ℤ → Index → Bool × Index
  unfolding shard_for
  seen_or_add_with_ttl key ttl now idx =
      let i = shard_for key in
      let (seen, s) = seen_or_add_in (get_or idx.shards i []) key ttl now in
      (seen, record idx { shards = set idx.shards i s })

  -- Index.SeenOrAdd
  unfoldable pub seen_or_add : String → ℤ → Index → Bool × Index
  unfolding shard_for
  seen_or_add key now idx =
      let i = shard_for key in
      let (seen, s) = seen_or_add_in (get_or idx.shards i []) key idx.ttl now in
      (seen, record idx { shards = set idx.shards i s })
