-- ===== src/Base/Utf8.antt =====
-- utf8.ValidString of Go's unicode/utf8, as a scan of the bytes of a string.
use Prim.Native.Nat.{ℕ, zero, suc}
use mathlib.Core.Path.{◌≡◌, refl}
use mathlib.Core.Bool.{Bool, true, false, ◌&&◌}
use mathlib.Core.Option.{Option, none, some}
use mathlib.Core.List.{[], ◌∷◌}
use httppooler.Base.Tests.{leb, if◌then◌else◌}
use httppooler.Base.Bytes.{Bytes}

abbrev within : ℕ → ℕ → ℕ → Bool
within lo hi b = leb lo b && leb b hi

-- What a first byte announces: how many bytes follow, and the range of the next one.
lead : ℕ → Option (ℕ × ℕ × ℕ)
lead b =
    if leb b 0x7f
    then some (0, 0x80, 0xbf)
    else if within 0xc2 0xdf b
    then some (1, 0x80, 0xbf)
    else if within 0xe0 0xe0 b
    then some (2, 0xa0, 0xbf)
    else if within 0xed 0xed b
    then some (2, 0x80, 0x9f)
    else if within 0xe1 0xef b
    then some (2, 0x80, 0xbf)
    else if within 0xf0 0xf0 b
    then some (3, 0x90, 0xbf)
    else if within 0xf1 0xf3 b
    then some (3, 0x80, 0xbf)
    else if within 0xf4 0xf4 b
    then some (3, 0x80, 0x8f)
    else none

-- `n` bytes of the character are still to come, the next of them in `lo..hi`.
scan : ℕ → ℕ → ℕ → Bytes → Bool
unfolding lead
scan zero lo hi [] = true
scan (suc n) lo hi [] = false
scan zero lo hi (b ∷ bs) = elim (lead b) [ none ↦ false | some (n, l, h) ↦ scan n l h bs ]
scan (suc n) lo hi (b ∷ bs) = let rest = scan n 0x80 0xbf bs in within lo hi b && rest

unfoldable pub valid_utf8 : Bytes → Bool
unfolding scan
valid_utf8 s = scan 0 0x80 0xbf s

-- "aé€", and the overlong form of "/".
valid_utf8-text : valid_utf8 (0x61 ∷ 0xc3 ∷ 0xa9 ∷ 0xe2 ∷ 0x82 ∷ 0xac ∷ []) ≡ true
unfolding valid_utf8
valid_utf8-text = refl

valid_utf8-overlong : valid_utf8 (0xc0 ∷ 0xaf ∷ []) ≡ false
unfolding valid_utf8
valid_utf8-overlong = refl
