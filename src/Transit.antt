-- ===== src/Transit.antt =====
-- internal/transit/cache.go: the bounded in-memory relay buffer. `now` is the instant that
-- time.Now() returns in the call; the order of the map is that in which `range` visits it.
pub mod Laws
mod Examples
use mrmi_gateway.Prelude.{
  ℕ, ℤ, pos, ◌+ℤ◌, ltb_ℤ, leb_ℤ, leb, String, Bool, true, false, not, ◌||◌, List, [], ◌∷◌, ◌==◌,
  if◌then◌else◌, length,
}
use mrmi_gateway.Prelude.Map
use mrmi_gateway.Prelude.Map.{Map}
use mrmi_gateway.Config.{seconds}
use mrmi_gateway.Envelope.{Envelope}

abbrev pub max_entries : ℕ
max_entries = 1000

abbrev pub max_ttl : ℤ
max_ttl = seconds 60

pub record Entry : Type 0 where
  pub env : Envelope
  pub peer_addr : String
  pub expires : ℤ

pub record Cache : Type 0 where
  pub entries : Map Entry
  pub ttl : ℤ

cap_ttl : ℤ → ℤ
cap_ttl ttl = if ltb_ℤ max_ttl ttl then max_ttl else ttl

-- transit.New
unfoldable pub new : ℤ → Cache
unfolding cap_ttl
new ttl = record { entries = []; ttl = cap_ttl (if leb_ℤ ttl (pos 0) then seconds 30 else ttl) }

-- The loop of `evictOldest`: the key and the expiry chosen so far. An empty key counts as none.
unfoldable pub oldest : Map Entry → String → ℤ → String
oldest [] key exp = key
oldest ((k, e) ∷ rest) key exp =
    let better = key == "" || ltb_ℤ e.expires exp in
    oldest rest (if better then k else key) (if better then e.expires else exp)

-- The zero time.Time that the loop begins with. It is never compared: the first entry is taken
-- whatever its expiry, since no key is chosen yet.
abbrev pub zero_time : ℤ
zero_time = pos 0

-- Cache.evictOldest
unfoldable pub evict_oldest : Map Entry → Map Entry
evict_oldest m = Map.delete (oldest m "" zero_time) m

-- Cache.Put
unfoldable pub put : Envelope → String → ℤ → Cache → Cache
put env peer_addr now c =
    let room = if leb max_entries (length c.entries) then evict_oldest c.entries else c.entries in
    record c {
      entries =
          Map.insert env.idempotency_key
            (record { env = env; peer_addr = peer_addr; expires = now +ℤ c.ttl }) room;
    }

-- Cache.Pending
unfoldable pub pending : ℤ → Map Entry → List Entry
pending now [] = []
pending now ((_, e) ∷ m) =
    let rest = pending now m in if not (ltb_ℤ e.expires now) then e ∷ rest else rest

-- What `Drain` returns.
unfoldable pub expired : ℤ → Map Entry → List Entry
expired now [] = []
expired now ((_, e) ∷ m) =
    let rest = expired now m in if ltb_ℤ e.expires now then e ∷ rest else rest

-- Cache.Drain
unfoldable pub drain : ℤ → Cache → List Entry × Cache
drain now c = (
  expired now c.entries,
  record c { entries = Map.retain (λ _ e. not (ltb_ℤ e.expires now)) c.entries },
)

-- Cache.Delete
unfoldable pub delete : String → Cache → Cache
delete key c = record c { entries = Map.delete key c.entries }

-- Cache.Len
unfoldable pub len : Cache → ℕ
len c = length c.entries
