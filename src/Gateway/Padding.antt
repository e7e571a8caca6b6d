-- ===== src/Gateway/Padding.antt =====
-- internal/core/gateway.go: `applyPadding` and the sizes of forwarded payloads.
use native.Mathlib.Nat.{div-add-mod', mod-lt}
use mrmi_gateway.Prelude.{
  ℕ, ◌+◌, ◌-◌, ◌*◌, ◌/◌, ◌%◌, ◌^◌, ◌≤◌, ◌<◌, pos, ◌≡◌, ◌≢◌, refl, List, [], ◌++◌, length, replicate,
  arith, length-append, length-replicate, List-cases, inl, inr,
}
use mrmi_gateway.Envelope.{Envelope}
use mrmi_gateway.Gateway.{apply_padding}

-- `total` is the least multiple of the bucket that holds n.
pub record IsRoundedUp (bucket n total : ℕ) : Type 0 where
  pub quotient : ℕ
  pub multiple : total ≡ quotient * bucket
  pub holds : n ≤ total
  pub least : total < n + bucket

round_up : (n b : ℕ) → 0 < b → IsRoundedUp b n ((n + b - 1) / b * b)
round_up n b positive =
    let whole = div-add-mod' (n + b - 1) b in
    let small = mod-lt (n + b - 1) positive in
    record { quotient = (n + b - 1) / b; multiple = refl; holds = omega arith; least = omega arith }

length-padded :
    (p : List ℕ) (total : ℕ)
    → length p ≤ total
    → length (p ++ replicate (total - length p) 0) ≡ total
length-padded p total h =
    rw
      (
        length-append p (replicate (total - length p) 0),
        length-replicate {A = ℕ} (total - length p) 0,
      )
      (omega arith)

pad_to : Envelope → ℕ → Envelope
pad_to env total = record env {
  payload = env.payload ++ replicate (total - length env.payload) 0;
  padded_to = total % 2 ^ 32;
}

apply_padding-eq :
    (env : Envelope) (b : ℕ)
    → 0 < b
    → env.payload ≢ []
    → apply_padding env (pos b) ≡ pad_to env ((length env.payload + b - 1) / b * b)
unfolding apply_padding pad_to
apply_padding-eq env b positive filled = elim (List-cases env.payload) [
  | inl empty ↦ absurd (filled empty)
  | inr (x, rest, e) ↦ rw e (ground arith)
]

-- For a positive bucket and a non-empty payload, padding appends zeros up to the least multiple of
-- the bucket that holds the payload, and `padded_to` is that size in uint32. The key, the regions
-- and the schema stay.
apply_padding_lem :
    (env : Envelope) (b : ℕ)
    → 0 < b
    → env.payload ≢ []
    → IsRoundedUp b (length env.payload) (length (apply_padding env (pos b)).payload)
      × ((apply_padding env (pos b)).payload
          ≡ env.payload
            ++ replicate (length (apply_padding env (pos b)).payload - length env.payload) 0)
      × ((apply_padding env (pos b)).padded_to
          ≡ length (apply_padding env (pos b)).payload % 2 ^ 32)
      × ((apply_padding env (pos b)).idempotency_key ≡ env.idempotency_key)
      × ((apply_padding env (pos b)).recipient_region ≡ env.recipient_region)
      × ((apply_padding env (pos b)).schema_type ≡ env.schema_type)
unfolding pad_to
apply_padding_lem env b positive filled =
    let r = round_up (length env.payload) b positive in
    let total = (length env.payload + b - 1) / b * b in
    rw (apply_padding-eq env b positive filled, length-padded env.payload total r.holds)
      (r, refl, refl, refl, refl, refl)
