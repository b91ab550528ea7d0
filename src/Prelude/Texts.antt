-- ===== src/Prelude/Texts.antt =====
-- Texts: concatenation, decimal numerals, and the split at a colon.
use Prim.Native.Nat.{ℕ, zero, suc, ◌/◌, ◌%◌}
use Prim.Native.Char.{code}
use Prim.Native.String.{String, ◌++◌ as ◌<>◌}
use mathlib.Core.Path.{◌≡◌, refl}
use mathlib.Core.Bool.{Bool, true, false, ◌&&◌, ◌||◌}
use mathlib.Core.Option.{Option, none, some}
use native.Mathlib.Omega.{arith}
use text.Mathlib.TextLemmas.{cons-append, nil-append}
use omnimap_sync.Prelude.Tests.{eqb, ltb, leb, if◌then◌else◌}
use omnimap_sync.Prelude.Int.{ℤ, pos, negsuc}

abbrev pub digit : ℕ → String
digit zero = "0"
digit (suc zero) = "1"
digit (suc (suc zero)) = "2"
digit (suc (suc (suc zero))) = "3"
digit (suc (suc (suc (suc zero)))) = "4"
digit (suc (suc (suc (suc (suc zero))))) = "5"
digit (suc (suc (suc (suc (suc (suc zero)))))) = "6"
digit (suc (suc (suc (suc (suc (suc (suc zero))))))) = "7"
digit (suc (suc (suc (suc (suc (suc (suc (suc zero)))))))) = "8"
digit _ = "9"

-- One round for each digit; `n + 1` rounds are more than `n` has digits.
decimal_loop : ℕ → ℕ → String
decimal_loop zero n = ""
decimal_loop (suc fuel) n =
    let rest = decimal_loop fuel (n / 10) <> digit (n % 10) in if ltb n 10 then digit n else rest

-- `str(n)` of an integer that is not negative.
unfoldable pub decimal : ℕ → String
unfolding decimal_loop
decimal n = decimal_loop (suc n) n

-- `str(z)` of an integer.
unfoldable pub integer_text : ℤ → String
unfolding decimal
integer_text (pos n) = decimal n
integer_text (negsuc n) = "-" <> decimal (suc n)

abbrev pub has_colon : String → Bool
has_colon String.[] = false
has_colon (String.◌∷◌ c s) = if eqb (code c) b':' then true else has_colon s

-- `s.split(":", 1)`: the text before the first colon and the text after it.
abbrev pub cut_colon : String → Option (String × String)
cut_colon String.[] = none
cut_colon (String.◌∷◌ c s) =
    let rest : Option (String × String) = elim (cut_colon s) [
      | none ↦ none
      | some (a, b) ↦ some (String.◌∷◌ c a, b)
    ] in
    if eqb (code c) b':' then some ("", s) else rest

pub cut_colon-append :
    (a b : String) → has_colon a ≡ false → cut_colon (a <> (":" <> b)) ≡ some (a, b)
cut_colon-append String.[] b h = rw (nil-append, cons-append, nil-append)
cut_colon-append (String.◌∷◌ c a) b h =
    rw cons-append (ground (arith, cut_colon-append a b (ground arith)))

has_colon-append :
    (a b : String) → has_colon a ≡ false → has_colon b ≡ false → has_colon (a <> b) ≡ false
has_colon-append String.[] b h k = rw nil-append k
has_colon-append (String.◌∷◌ c a) b h k =
    rw cons-append (ground (arith, has_colon-append a b (ground arith) k))

has_colon-digit : (n : ℕ) → has_colon (digit n) ≡ false
has_colon-digit zero = refl
has_colon-digit (suc zero) = refl
has_colon-digit (suc (suc zero)) = refl
has_colon-digit (suc (suc (suc zero))) = refl
has_colon-digit (suc (suc (suc (suc zero)))) = refl
has_colon-digit (suc (suc (suc (suc (suc zero))))) = refl
has_colon-digit (suc (suc (suc (suc (suc (suc zero)))))) = refl
has_colon-digit (suc (suc (suc (suc (suc (suc (suc zero))))))) = refl
has_colon-digit (suc (suc (suc (suc (suc (suc (suc (suc zero)))))))) = refl
has_colon-digit _ = refl

has_colon-decimal_loop : (fuel n : ℕ) → has_colon (decimal_loop fuel n) ≡ false
unfolding decimal_loop
has_colon-decimal_loop zero n = refl
has_colon-decimal_loop (suc fuel) n = ground (
  arith,
  has_colon-digit n,
  has_colon-append (decimal_loop fuel (n / 10)) (digit (n % 10))
      (has_colon-decimal_loop fuel (n / 10)) (has_colon-digit (n % 10)),
)

pub has_colon-decimal : (n : ℕ) → has_colon (decimal n) ≡ false
unfolding decimal
has_colon-decimal n = has_colon-decimal_loop (suc n) n

decimal_samples : (decimal 0 ≡ "0") × (decimal 1207 ≡ "1207") × (integer_text (negsuc 0) ≡ "-1")
unfolding integer_text
decimal_samples = (refl, refl, refl)

-- `s.startswith(c)` for a text `c` of the one character with this code.
abbrev pub starts_with_code : String → ℕ → Bool
starts_with_code String.[] c = false
starts_with_code (String.◌∷◌ d s) c = eqb (code d) c

-- The first character is a digit or a minus sign.
abbrev pub leads_numeral : String → Bool
leads_numeral String.[] = false
leads_numeral (String.◌∷◌ d s) = (leb b'0' (code d) && leb (code d) b'9') || eqb (code d) b'-'

leads_numeral-append : (a b : String) → leads_numeral a ≡ true → leads_numeral (a <> b) ≡ true
leads_numeral-append String.[] b h = ground arith
leads_numeral-append (String.◌∷◌ d a) b h = rw cons-append h

leads_numeral-digit : (n : ℕ) → leads_numeral (digit n) ≡ true
leads_numeral-digit zero = refl
leads_numeral-digit (suc zero) = refl
leads_numeral-digit (suc (suc zero)) = refl
leads_numeral-digit (suc (suc (suc zero))) = refl
leads_numeral-digit (suc (suc (suc (suc zero)))) = refl
leads_numeral-digit (suc (suc (suc (suc (suc zero))))) = refl
leads_numeral-digit (suc (suc (suc (suc (suc (suc zero)))))) = refl
leads_numeral-digit (suc (suc (suc (suc (suc (suc (suc zero))))))) = refl
leads_numeral-digit (suc (suc (suc (suc (suc (suc (suc (suc zero)))))))) = refl
leads_numeral-digit _ = refl

leads_numeral-decimal_loop : (fuel n : ℕ) → leads_numeral (decimal_loop (suc fuel) n) ≡ true
unfolding decimal_loop
leads_numeral-decimal_loop zero n =
    ground (arith, leads_numeral-digit n, nil-append (digit (n % 10)), leads_numeral-digit (n % 10))
leads_numeral-decimal_loop (suc fuel) n = ground (
  arith,
  leads_numeral-digit n,
  leads_numeral-append (decimal_loop (suc fuel) (n / 10)) (digit (n % 10))
      (leads_numeral-decimal_loop fuel (n / 10)),
)

pub leads_numeral-integer_text : (z : ℤ) → leads_numeral (integer_text z) ≡ true
unfolding integer_text decimal
leads_numeral-integer_text (pos n) = leads_numeral-decimal_loop n n
leads_numeral-integer_text (negsuc n) = leads_numeral-append "-" (decimal (suc n)) refl
