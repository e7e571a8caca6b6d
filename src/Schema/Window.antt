-- ===== src/Schema/Window.antt =====
-- internal/schema/iso20022.go: the daily processing window of a corridor. A time zone of the
-- standard library's database is a parameter: what `t.In(loc)` shows as hour and minute, and the
-- instant that `time.Date` gives for an hour and a minute of the same local day.
pub mod Laws
use Prim.Native.Char.{code}
use Prim.Native.String.{len, char_at}
use mrmi_gateway.Prelude.{
  ℕ, ◌+◌, ◌-◌, ◌*◌, ◌/◌, ◌%◌, ltb, leb, nat_eq, ltb_ℤ, ℤ, pos, ◌+ℤ◌, String, Bool, true, not, ◌&&◌,
  ◌||◌, Option, none, some, List, [], ◌∷◌, if◌then◌else◌,
}
use mathlib.Core.Option
use mrmi_gateway.Prelude.Int.{pos_part, sub_ℕ}
use mrmi_gateway.Prelude.Text.{codes, is_space}
use mrmi_gateway.Config.{CutoffWindow, hours}

pub record Zone : Type 0 where
  pub hour : ℤ → ℕ
  pub minute : ℤ → ℕ
  pub on_day_of : ℤ → ℕ → ℕ → ℤ

pub data WindowError : Type 0 where
  invalid_timezone open_format close_format : WindowError

pub data Result {ℓ} (A : Type ℓ) : Type ℓ where
  ok : A → Result A
  err : WindowError → Result A

infixl 5 ◌>>=◌
abbrev pub ◌>>=◌ {ℓ κ} : {A : Type ℓ} {B : Type κ} → Result A → (A → Result B) → Result B
ok a >>= f = f a
err e >>= f = err e

abbrev pub or_err {ℓ} : {A : Type ℓ} → WindowError → Option A → Result A
or_err e none = err e
or_err e (some a) = ok a

is_digit : ℕ → Bool
is_digit c = leb b'0' c && leb c b'9'

value_or_zero : Option ℕ → ℕ
value_or_zero none = 0
value_or_zero (some n) = n

-- The digits that %d takes, with the value so far; none before the first digit.
scan_digits : Option ℕ → List ℕ → Option ℕ × List ℕ
unfolding is_digit value_or_zero
scan_digits acc [] = (acc, [])
scan_digits acc (c ∷ s) =
    let rest = scan_digits (some (value_or_zero acc * 10 + (c - 48))) s in
    if is_digit c then rest else (acc, c ∷ s)

signed : (ℕ → ℤ) → Option ℕ × List ℕ → Option (ℤ × List ℕ)
signed sign (none, s) = none
signed sign (some n, s) = some (sign n, s)

-- An optional sign and at least one digit.
scan_signed : List ℕ → Option (ℤ × List ℕ)
unfolding scan_digits signed
scan_signed [] = none
scan_signed (c ∷ s) =
    if nat_eq c b'-'
    then signed (sub_ℕ 0) (scan_digits none s)
    else if nat_eq c b'+'
    then signed pos (scan_digits none s)
    else signed pos (scan_digits none (c ∷ s))

-- %d skips white space first; a newline is an error.
scan_int : List ℕ → Option (ℤ × List ℕ)
unfolding scan_signed is_space
scan_int [] = none
scan_int (c ∷ s) =
    let rest = scan_int s in
    if nat_eq c 10 then none else if is_space c then rest else scan_signed (c ∷ s)

expect : ℕ → List ℕ → Option (List ℕ)
expect x [] = none
expect x (c ∷ s) = if nat_eq x c then some s else none

-- fmt.Sscanf(s, "%d:%d", &h, &m), if both numbers are read
scan_tod : List ℕ → Option (ℤ × ℤ)
unfolding scan_int expect
scan_tod s =
    Option.bind (scan_int s)
      λ a. Option.bind (expect b':' a.1) λ r. Option.map (λ b. (a.0, b.0)) (scan_int r)

tod_in_range : ℤ → ℤ → Option ℕ
tod_in_range h m =
    if ltb_ℤ h (pos 0) || ltb_ℤ (pos 23) h || ltb_ℤ m (pos 0) || ltb_ℤ (pos 59) m
    then none
    else some (pos_part h * 60 + pos_part m)

-- parseTOD
unfoldable pub parse_tod : String → Option ℕ
unfolding scan_tod tod_in_range
parse_tod s =
    if not (nat_eq (len s) 5) || not (nat_eq (code (char_at s 2)) b':')
    then none
    else Option.bind (scan_tod (codes s)) (λ a. tod_in_range a.0 a.1)

-- timeOfDay
unfoldable pub time_of_day : Zone → ℤ → ℕ
time_of_day z t = z.hour t * 60 + z.minute t

-- The test of `IsInWindow` on minutes since midnight.
unfoldable pub inside : ℕ → ℕ → ℕ → Bool
inside opens closes now =
    if leb opens closes then leb opens now && ltb now closes else leb opens now || ltb now closes

-- The branches of `NextOpen`: whether the window opens on the local day of `t`.
unfoldable pub opens_today : ℕ → ℕ → ℕ → Bool
opens_today opens closes now = if leb opens closes then ltb now opens else true

module _ (load_location : String → Option Zone) where
  -- schema.IsInWindow
  unfoldable pub is_in_window : CutoffWindow → ℤ → Result Bool
  unfolding time_of_day inside
  is_in_window w t = do
    loc ← or_err invalid_timezone (load_location w.tz)
    opens ← or_err open_format (parse_tod w.opens)
    closes ← or_err close_format (parse_tod w.closes)
    ok (inside opens closes (time_of_day loc t))

  -- schema.NextOpen
  unfoldable pub next_open : CutoffWindow → ℤ → Result ℤ
  unfolding time_of_day opens_today ◌+ℤ◌
  next_open w t = do
    loc ← or_err invalid_timezone (load_location w.tz)
    opens ← or_err open_format (parse_tod w.opens)
    closes ← or_err close_format (parse_tod w.closes)
    let open_today = loc.on_day_of t (opens / 60) (opens % 60)
    ok (if opens_today opens closes (time_of_day loc t) then open_today else open_today +ℤ hours 24)
