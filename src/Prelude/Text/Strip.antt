-- ===== src/Prelude/Text/Strip.antt =====
-- `str.strip` is idempotent.
use Prim.Native.Char.{code}
use routing.Prelude.Tests.{Bool-cases}
use mathlib.Core.Path.{◌≡◌, refl}
use mathlib.Core.Bool.{false, ◌&&◌}
use mathlib.Core.Logic.{inl, inr}
use text.Mathlib.Text.{◌==◌}
use Prim.Native.String.{String}
use routing.Prelude.Text.{is_space, strip_left, strip_right, strip}

-- No space in front.
abbrev IsClean : String → Type 0
IsClean String.[] = Unit
IsClean (String.◌∷◌ c s) = is_space (code c) ≡ false

strip_left-IsClean : (s : String) → IsClean (strip_left s)
unfolding strip_left
strip_left-IsClean String.[] = tt
strip_left-IsClean (String.◌∷◌ c s) = elim (Bool-cases (is_space (code c))) [
  | inl sp ↦ rw sp (strip_left-IsClean s)
  | inr ns ↦ rw ns ns
]

strip_left_of_clean : (s : String) → IsClean s → strip_left s ≡ s
unfolding strip_left
strip_left_of_clean String.[] h = refl
strip_left_of_clean (String.◌∷◌ c s) h = rw h

strip_right-IsClean : (s : String) → IsClean s → IsClean (strip_right s)
unfolding strip_right
strip_right-IsClean String.[] h = tt
strip_right-IsClean (String.◌∷◌ c s) h = rw h h

strip_right_idem : (s : String) → strip_right (strip_right s) ≡ strip_right s
unfolding strip_right
strip_right_idem String.[] = refl
strip_right_idem (String.◌∷◌ c s) = elim (Bool-cases (is_space (code c) && strip_right s == "")) [
  | inl gone ↦ rw gone
  | inr kept ↦ rw kept (rw (strip_right_idem s) (rw kept))
]

pub strip_idem : (s : String) → strip (strip s) ≡ strip s
unfolding strip
strip_idem s =
    rw
      (strip_left_of_clean (strip_right (strip_left s))
        (strip_right-IsClean (strip_left s) (strip_left-IsClean s)))
      (strip_right_idem (strip_left s))
