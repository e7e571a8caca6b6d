-- ===== src/Dedup/Examples.antt =====
-- The index's theorems at a concrete index and calls.
use mrmi_gateway.Prelude.{
  pos, ◌+ℤ◌, true, not, ◌&&◌, some, [], ◌∷◌, ◌≡◌, refl, ◌==◌, if◌then◌else◌, arith,
}
use mrmi_gateway.Prelude.Map
use mrmi_gateway.Config.{hours}
use mrmi_gateway.Dedup.{Index, new, live, seen_or_add_with_ttl, seen_or_add_in, shard_for}
use mrmi_gateway.Dedup.Laws.{find, new-IsValid, seen_or_add_with_ttl-find}
use mrmi_gateway.Dedup.Window.{add, sweep, run, admitted_once}
use mrmi_gateway.Samples.{key_hash}

abbrev index : Index
index = new (hours 24)

seen_or_add_with_ttl-find_example :
    ((seen_or_add_with_ttl key_hash "a1" (pos 100) (pos 5) index).0
      ≡ live (find key_hash "a1" index) (pos 5))
    × (find key_hash "b2" (seen_or_add_with_ttl key_hash "a1" (pos 100) (pos 5) index).1 ≡ (
        if "a1" == "b2" && not (live (find key_hash "a1" index) (pos 5))
        then some (pos 5 +ℤ pos 100)
        else find key_hash "b2" index))
seen_or_add_with_ttl-find_example =
    seen_or_add_with_ttl-find key_hash "a1" (pos 100) (pos 5) index "b2" (new-IsValid (hours 24))

admitted_once_example :
    (seen_or_add_with_ttl key_hash "a1" (pos 10) (pos 104) (
      run key_hash
        (add "b2" (pos 6) ∷ sweep (pos 50) ∷ [])
        (seen_or_add_with_ttl key_hash "a1" (pos 100) (pos 5) index).1)).0
    ≡ true
unfolding seen_or_add_with_ttl seen_or_add_in live new shard_for Map.lookup ◌+ℤ◌
admitted_once_example =
    admitted_once key_hash "a1" (pos 100) (pos 5) (pos 104) (pos 10) index
      (add "b2" (pos 6) ∷ sweep (pos 50) ∷ []) (new-IsValid (hours 24)) refl
      (omega arith, (omega arith, tt)) (omega arith)
