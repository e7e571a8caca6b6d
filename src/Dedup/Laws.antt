-- ===== src/Dedup/Laws.antt =====
-- internal/dedup/index.go: the shards, against one map from keys to expiries.
use mrmi_gateway.Prelude.{
  ℕ, ◌%◌, ◌<◌, ℤ, ◌+ℤ◌, ltb_ℤ, String, not, ◌≡◌, refl, ap, ◌∙◌, ◌&&◌, zero, suc, Option, none, some,
  List, [], ◌∷◌, map, length, get_or, set, replicate, length-set, get_or-set_self, get_or-set_ne,
  if◌then◌else◌, arith, eq_iff, ◌==◌,
}
use native.Mathlib.Decide.{ℕ_discrete}
use mrmi_gateway.Prelude.Map
use mrmi_gateway.Prelude.Map.{
  Distinct, lookup-insert, insert-Distinct, retain-Distinct, lookup-retain-some, lookup-retain-none,
}
use mrmi_gateway.Dedup.{
  num_shards, Shard, Index, new, live, seen_or_add_in, purge_shard, purge, shard_for,
  seen_or_add_with_ttl, seen_or_add,
}

-- Sixteen shards, each a map with distinct keys.
abbrev pub AllDistinct : List Shard → Type 0
AllDistinct [] = Unit
AllDistinct (s ∷ l) = Distinct s × AllDistinct l

pub record IsValid (idx : Index) : Type 0 where
  pub sixteen : length idx.shards ≡ num_shards
  pub distinct : AllDistinct idx.shards

get_or-Distinct : (l : List Shard) (i : ℕ) → AllDistinct l → Distinct (get_or l i [])
get_or-Distinct [] i d = tt
get_or-Distinct (s ∷ l) zero d = d.0
get_or-Distinct (s ∷ l) (suc i) d = get_or-Distinct l i d.1

set-AllDistinct :
    (l : List Shard) (i : ℕ) (s : Shard) → AllDistinct l → Distinct s → AllDistinct (set l i s)
set-AllDistinct [] i s d h = tt
set-AllDistinct (x ∷ l) zero s d h = (h, d.1)
set-AllDistinct (x ∷ l) (suc i) s d h = (d.0, set-AllDistinct l i s d.1 h)

map-AllDistinct : (now : ℤ) (l : List Shard) → AllDistinct l → AllDistinct (map (purge_shard now) l)
unfolding purge_shard
map-AllDistinct now [] d = tt
map-AllDistinct now (s ∷ l) d = (retain-Distinct _ s d.0, map-AllDistinct now l d.1)

length-map_purge : (now : ℤ) (l : List Shard) → length (map (purge_shard now) l) ≡ length l
length-map_purge now [] = refl
length-map_purge now (s ∷ l) = ap suc (length-map_purge now l)

get_or-map_purge :
    (now : ℤ) (l : List Shard) (i : ℕ)
    → get_or (map (purge_shard now) l) i [] ≡ purge_shard now (get_or l i [])
unfolding purge_shard Map.retain
get_or-map_purge now [] i = refl
get_or-map_purge now (s ∷ l) zero = refl
get_or-map_purge now (s ∷ l) (suc i) = get_or-map_purge now l i

seen_or_add_in-Distinct :
    (s : Shard) (key : String) (ttl now : ℤ)
    → Distinct s
    → Distinct (seen_or_add_in s key ttl now).1
unfolding seen_or_add_in
seen_or_add_in-Distinct s key ttl now d = ground (arith, insert-Distinct key (now +ℤ ttl) s d)

replicate-AllDistinct : (n : ℕ) → AllDistinct (replicate n [])
replicate-AllDistinct zero = tt
replicate-AllDistinct (suc n) = (tt, replicate-AllDistinct n)

pub new-IsValid : (ttl : ℤ) → IsValid (new ttl)
unfolding new
new-IsValid ttl = record { sixteen = refl; distinct = replicate-AllDistinct num_shards }

pub purge-IsValid : (now : ℤ) (idx : Index) → IsValid idx → IsValid (purge now idx)
unfolding purge
purge-IsValid now idx v = record {
  sixteen = length-map_purge now idx.shards ∙ v.sixteen;
  distinct = map-AllDistinct now idx.shards v.distinct;
}

module _ (sum32 : String → ℕ) where
  -- The expiry that the index holds for a key.
  unfoldable pub find : String → Index → Option ℤ
  unfolding shard_for
  find key idx = Map.lookup key (get_or idx.shards (shard_for sum32 key) [])

  pub seen_or_add_with_ttl-IsValid :
      (key : String) (ttl now : ℤ) (idx : Index)
      → IsValid idx
      → IsValid (seen_or_add_with_ttl sum32 key ttl now idx).1
  unfolding seen_or_add_with_ttl
  seen_or_add_with_ttl-IsValid key ttl now idx v = record {
    sixteen = length-set idx.shards _ _ ∙ v.sixteen;
    distinct =
        set-AllDistinct idx.shards _ _ v.distinct
          (seen_or_add_in-Distinct _ key ttl now (get_or-Distinct idx.shards _ v.distinct));
  }

  -- `SeenOrAdd` is `SeenOrAddWithTTL` at the index's own TTL.
  pub seen_or_add-eq :
      (key : String) (now : ℤ) (idx : Index)
      → seen_or_add sum32 key now idx ≡ seen_or_add_with_ttl sum32 key idx.ttl now idx
  unfolding seen_or_add seen_or_add_with_ttl
  seen_or_add-eq key now idx = refl

  -- A valid index behaves as one map: the answer is whether the key is held and not expired; if it is not, the key and
  -- no other key gets the expiry now + ttl.
  pub seen_or_add_with_ttl-find :
      (key : String) (ttl now : ℤ) (idx : Index) (j : String)
      → IsValid idx
      → ((seen_or_add_with_ttl sum32 key ttl now idx).0 ≡ live (find key idx) now)
        × (find j (seen_or_add_with_ttl sum32 key ttl now idx).1
            ≡ (if key == j && not (live (find key idx) now) then some (now +ℤ ttl) else find j idx))
  unfolding seen_or_add_with_ttl seen_or_add_in find
  seen_or_add_with_ttl-find key ttl now idx j v =
      let i = sum32 key % num_shards in
      let s = get_or idx.shards i [] in
      let s' = (seen_or_add_in s key ttl now).1 in
      let fits : i < length idx.shards = rw v.sixteen (omega arith) in
      (
        ground arith,
        elim (ℕ_discrete i (sum32 j % num_shards)) [
          | yes same ↦
              rw (← same, get_or-set_self idx.shards i s' [] fits)
                (ground (arith, lookup-insert key j (now +ℤ ttl) s, same))
          | no other ↦ rw (get_or-set_ne idx.shards i (sum32 j % num_shards) s' [] other) (
              ground (
                arith,
                eq_iff key j,
                λ (e : key ≡ j). other (ap (λ (k : String). sum32 k % num_shards) e),
              ))
        ],
      )

  pub find-purge :
      (now : ℤ) (idx : Index) (j : String)
      → IsValid idx
      → (e : ℤ) → find j idx ≡ some e
      → find j (purge now idx) ≡ (if ltb_ℤ e now then none else some e)
  unfolding purge purge_shard find
  find-purge now idx j v e h = rw get_or-map_purge (
      ground (
        arith,
        lookup-retain-some (λ _ exp. not (ltb_ℤ exp now)) j e
            (get_or idx.shards (sum32 j % num_shards) []) (get_or-Distinct idx.shards _ v.distinct)
            h,
      ))
