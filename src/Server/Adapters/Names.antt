-- ===== src/Server/Adapters/Names.antt =====
-- internal/server/http.go: which adapters the registry can hold.
use mrmi_gateway.Prelude.{
  ℤ, String, Bool-cases, true, ◌≡◌, refl, inl, inr, Option, none, some, ◌==◌, eq_iff,
}
use mrmi_gateway.Prelude.Map
use mrmi_gateway.Prelude.Map.{Map, lookup-insert, lookup-delete}
use mrmi_gateway.Server.Adapters.{
  Entry, RuntimeAdapters, register, delete, is_custom, stamped, post_adapter, delete_adapter,
}

-- A call of one of the two endpoints.
pub data Call : Type 0 where
  post : Option Entry → ℤ → Call
  remove : String → Call

abbrev pub after : Call → RuntimeAdapters → Option RuntimeAdapters
after (post body now) ra = (post_adapter body now (some ra)).1
after (remove name) ra = (delete_adapter name (some ra)).1

-- Every stored adapter stands under its own name, which begins with "custom:".
abbrev pub AllCustom : RuntimeAdapters → Type 0
AllCustom ra =
    (name : String) (e : Entry)
    → Map.lookup name ra.adapters ≡ some e
    → (e.schema_type ≡ name) × (is_custom name ≡ true)

register-AllCustom :
    (e : Entry) (ra : RuntimeAdapters)
    → is_custom e.schema_type ≡ true
    → AllCustom ra
    → AllCustom (register e ra)
unfolding register
register-AllCustom e ra custom h name x there = elim (Bool-cases (e.schema_type == name)) [
  | inl same ↦
      let found : some e ≡ some x = rw (lookup-insert, same) at there in
      let named : e.schema_type ≡ name = (eq_iff e.schema_type name).0 same in
      let stored : e ≡ x = cc found in (rw stored at named, rw named at custom)
  | inr other ↦ h name x (rw (lookup-insert, other) at there)
]

delete-AllCustom :
    (gone : String) (ra : RuntimeAdapters) → AllCustom ra → AllCustom (delete gone ra).1
unfolding delete
delete-AllCustom gone ra h name x there = elim (Bool-cases (gone == name)) [
  | inl same ↦ absurd (cc (rw (lookup-delete, same) at there))
  | inr other ↦ h name x (rw (lookup-delete, other) at there)
]

-- Any call of the two endpoints keeps the registry, and in it only adapters that stand under their
-- own name, a name that begins with "custom:"; so no built-in adapter is replaced.
after-AllCustom :
    (c : Call) (ra : RuntimeAdapters)
    → AllCustom ra
    → (ra' : RuntimeAdapters) × (after c ra ≡ some ra') × AllCustom ra'
unfolding post_adapter delete_adapter stamped
after-AllCustom (post none now) ra h = (ra, refl, h)
after-AllCustom (post (some e) now) ra h = elim (Bool-cases (is_custom e.schema_type)) [
  | inl custom ↦
      rw (after, custom)
        (register (stamped e now) ra, refl, register-AllCustom (stamped e now) ra custom h)
  | inr plain ↦ rw (after, plain) (ra, refl, h)
]
after-AllCustom (remove name) ra h = elim (Bool-cases (is_custom name)) [
  | inl custom ↦ rw (after, custom) ((delete name ra).1, refl, delete-AllCustom name ra h)
  | inr plain ↦ rw (after, plain) (ra, refl, h)
]
