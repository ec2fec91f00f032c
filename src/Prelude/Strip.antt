-- ===== src/Prelude/Strip.antt =====
-- `str.strip`: what it leaves has no space at either end, so a second call changes nothing.
use Prim.Native.Char.{code}
use Prim.Native.String.{String, ◌++◌}
use Prim.Native.String.append
use mathlib.Core.Path.{◌≡◌, refl, ap, ◌∙◌}
use mathlib.Core.Logic.{inl, inr}
use mathlib.Core.Bool.{Bool, true, false, not, ◌&&◌}
use native.Mathlib.Omega.{arith}
use mitigate_ai_platform.Prelude.Tests.{if◌then◌else◌, Bool-cases}
use mitigate_ai_platform.Prelude.Texts.{is_space, lstrip, rstrip, strip, is_empty}

-- No character is a space.
unfoldable pub has_no_space : String → Bool
unfolding is_space
has_no_space String.[] = true
has_no_space (String.◌∷◌ c s) = not (is_space (code c)) && has_no_space s

rstrip_no_space : (s : String) → has_no_space s ≡ true → rstrip s ≡ s
unfolding has_no_space rstrip
rstrip_no_space String.[] h = refl
rstrip_no_space (String.◌∷◌ c s) h =
    let solid : is_space (code c) ≡ false = ground (arith, h) in
    let rest = rstrip_no_space s (ground (arith, h)) in rw rest (rw solid (kept (is_empty s)))
  where
    kept : (b : Bool) → (if b && false then String.[] else String.◌∷◌ c s) ≡ String.◌∷◌ c s
    kept true = refl
    kept false = refl

lstrip_no_space : (s : String) → has_no_space s ≡ true → lstrip s ≡ s
unfolding has_no_space lstrip
lstrip_no_space String.[] h = refl
lstrip_no_space (String.◌∷◌ c s) h =
    let solid : is_space (code c) ≡ false = ground (arith, h) in rw solid refl

pub strip_no_space : (s : String) → has_no_space s ≡ true → strip s ≡ s
unfolding strip
strip_no_space s h = rw (lstrip_no_space s h) (rstrip_no_space s h)

pub has_no_space-append :
    (s t : String) → has_no_space (s ++ t) ≡ (has_no_space s && has_no_space t)
unfolding has_no_space
has_no_space-append String.[] t = ap has_no_space (append.nil t)
has_no_space-append (String.◌∷◌ c s) t =
    ap has_no_space (append.cons c s t) ∙ ground (arith, has_no_space-append s t)

rstrip_idem : (s : String) → rstrip (rstrip s) ≡ rstrip s
unfolding rstrip
rstrip_idem String.[] = refl
rstrip_idem (String.◌∷◌ c s) = elim (Bool-cases (is_empty (rstrip s) && is_space (code c))) [
  | inl gone ↦ rw gone refl
  | inr kept ↦ rw kept (rw (rstrip_idem s) (rw kept refl))
]

-- The first character that stays is no space, and `rstrip` keeps it.
lstrip-rstrip-lstrip : (s : String) → lstrip (rstrip (lstrip s)) ≡ rstrip (lstrip s)
unfolding lstrip rstrip
lstrip-rstrip-lstrip String.[] = refl
lstrip-rstrip-lstrip (String.◌∷◌ c s) = elim (Bool-cases (is_space (code c))) [
  | inl space ↦ rw space (lstrip-rstrip-lstrip s)
  | inr solid ↦ rw solid (first (is_empty (rstrip s)) solid)
]
  where
    first :
        (b : Bool)
        → is_space (code c) ≡ false
        → lstrip (if b && is_space (code c) then String.[] else String.◌∷◌ c (rstrip s))
          ≡ (if b && is_space (code c) then String.[] else String.◌∷◌ c (rstrip s))
    first true solid = rw solid (rw solid refl)
    first false solid = rw solid refl

pub strip-strip : (s : String) → strip (strip s) ≡ strip s
unfolding strip
strip-strip s = ap rstrip (lstrip-rstrip-lstrip s) ∙ rstrip_idem (lstrip s)
