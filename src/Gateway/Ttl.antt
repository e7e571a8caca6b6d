-- ===== src/Gateway/Ttl.antt =====
-- internal/core/gateway.go: the dedup window of iso20022.
use mrmi_gateway.Prelude.{◌*◌, ℤ, pos, ◌≡◌, ◌⊎◌, arith}
use mrmi_gateway.Prelude.Int.{◌<ℤ◌, ◌≤ℤ◌, pos_part, to_int64}
use mrmi_gateway.Gateway.{iso_dedup_ttl}

-- For at most 2_562_047 configured hours the window is exactly the configured hours or 72 hours,
-- whichever is longer.
iso_dedup_ttl_lem :
    (hours : ℤ)
    → hours ≤ℤ pos 2_562_047
    → (iso_dedup_ttl hours ≡ pos (pos_part hours * 3_600_000_000_000) × (pos 72 ≤ℤ hours))
      ⊎ (iso_dedup_ttl hours ≡ pos (72 * 3_600_000_000_000) × (hours <ℤ pos 72))
unfolding iso_dedup_ttl to_int64
iso_dedup_ttl_lem hours small = ground arith
