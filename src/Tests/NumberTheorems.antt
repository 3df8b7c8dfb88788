-- ===== src/Tests/NumberTheorems.antt =====
-- The theorems of integers at concrete inputs.
use python_lite.Base.{ℕ, ◌≡◌, true, List, ◌++◌, map, some, arith}
use python_lite.Base.Int.{negsuc}
use python_lite.Types.Digits.{int_from_cstr}
use python_lite.Types.Number.{int_to_ucs4}
use python_lite.Types.Number.RoundTrip.{sign_text, int_from_cstr-int_to_ucs4}

-- The integer -120.
int_from_cstr-int_to_ucs4_example :
    (cs : List ℕ) × (int_to_ucs4 (negsuc 119) ≡ some (map some (sign_text true ++ cs)))
    × (int_from_cstr 0 cs ≡ 120)
int_from_cstr-int_to_ucs4_example = int_from_cstr-int_to_ucs4 (negsuc 119) (omega arith)
