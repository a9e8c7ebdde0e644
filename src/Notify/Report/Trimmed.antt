-- ===== src/Notify/Report/Trimmed.antt =====
-- A text that is trimmed becomes no longer.
use mathlib.Core.List.{reverse_aux}
use domain_monitor.Base.{ℕ, Bool, ◌+◌, ◌≤◌, ◌≡◌, [], ◌∷◌, arith, length, reverse}
use domain_monitor.Text.{Text, byte_len, is_space, trim_left, trim, trim_space}

byte_len-reverse_aux :
    (s t : Text)
    → (byte_len (reverse_aux s t) ≡ byte_len s + byte_len t)
      × (length (reverse_aux s t) ≡ length s + length t)
unfolding byte_len
byte_len-reverse_aux [] t = (omega arith, omega arith)
byte_len-reverse_aux (c ∷ s) t =
    (omega (arith, byte_len-reverse_aux s (c ∷ t)), omega (arith, byte_len-reverse_aux s (c ∷ t)))

trim_left-bounds :
    (p : ℕ → Bool) (s : Text)
    → (byte_len (trim_left p s) ≤ byte_len s) × (length (trim_left p s) ≤ length s)
unfolding byte_len trim_left
trim_left-bounds p [] = (omega arith, omega arith)
trim_left-bounds p (c ∷ s) = ground (arith, trim_left-bounds p s)

pub trim_space-bounds :
    (s : Text) → (byte_len (trim_space s) ≤ byte_len s) × (length (trim_space s) ≤ length s)
unfolding trim_space trim byte_len
trim_space-bounds s =
    let once = trim_left is_space s in
    let twice = trim_left is_space (reverse once) in
    omega (
      arith,
      trim_left-bounds is_space s,
      byte_len-reverse_aux once [],
      trim_left-bounds is_space (reverse once),
      byte_len-reverse_aux twice [],
    )
