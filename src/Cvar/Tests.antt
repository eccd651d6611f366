-- ===== src/Cvar/Tests.antt =====
-- The console variables of src/cvar.c on examples.
use co_d4x_client_pub.Common.{
  ℕ, ◌≡◌, refl, inr, false, none, some, List, [], ◌∷◌, ltb, leb, ◌==◌, arith,
}
use co_d4x_client_pub.Cvar.{
  CvarType, SetSource, Value, Cvar, World, Floats, values_equal, value_in_domain, cvar_latch,
  set_variant,
}
use co_d4x_client_pub.Cvar.Domain.{InDomain, Set, run, run-Set}
use co_d4x_client_pub.Cvar.Protect.{run-Kept}
use co_d4x_client_pub.Cvar.Latch.{Latched, set_variant-Latched}

-- Floats that are not negative compare as their patterns.
abbrev floats : Floats
floats = record { eq = λ a b. a == b; le = λ a b. leb a b; gt = λ a b. ltb b a }

abbrev number : ℕ → Value
number n = record { words = n ∷ 0 ∷ 0 ∷ 0 ∷ []; text = [] }

-- An enumeration of three strings that changes at a restart only.
abbrev gametype : Cvar
gametype = record {
  name = b'g' ∷ [];
  flags = cvar_latch;
  kind = CvarType.enum;
  modified = false;
  current = number 1;
  latched = number 1;
  reset = number 0;
  limits = record { min = 3; max = 0 };
}

abbrev world : World
world = record { cheats = false; modified_flags = 0; latched_set = false }

gametype-InDomain : InDomain floats gametype
unfolding value_in_domain
gametype-InDomain = record { current = refl; latched = refl; reset = refl }

abbrev calls : List (Value × SetSource)
calls = (number 2, SetSource.external) ∷ (number 9, SetSource.script) ∷ []

run-Set_example : Set floats (run floats world gametype calls)
run-Set_example = run-Set floats calls world gametype gametype-InDomain

equal_sym : (a b : ℕ) → floats.eq a b ≡ floats.eq b a
equal_sym a b = ground arith

run-Kept_example :
    (r : World × Cvar) × (run floats world gametype calls ≡ some r)
    × (r.1.current ≡ gametype.current)
run-Kept_example =
    run-Kept floats equal_sym calls world gametype gametype-InDomain (inr (inr (inr refl)))
      (refl, (refl, tt))

set_variant-Latched_example : Latched floats world gametype (number 2)
unfolding value_in_domain values_equal
set_variant-Latched_example =
    set_variant-Latched floats world gametype (number 2) (omega arith) refl refl refl refl

-- An enumeration whose reset value is out of its domain has no end.
abbrev broken : Cvar
broken = record gametype { reset = number 7 }

endless : set_variant floats 5 world broken (number 9) SetSource.external ≡ none
unfolding value_in_domain
endless = refl
