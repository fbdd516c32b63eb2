-- ===== src/Pm/Double.antt =====
-- `double` and what the standard library makes of it, as the program uses them: the comparisons,
-- `std::to_chars` (the shortest text that reads back as the same double), `std::stod` and the
-- quotient of two exact integers. The laws state the documented behaviour.
use polymarket_cpp.Prelude.{
  ℕ, ◌+◌, ◌*◌, ◌^◌, ◌≤◌, ◌<◌, ◌≡◌, Bool, true, false, String, ◌∷◌, Bytes, codes, length, pos_part,
  neg_part, AllDigits, value,
}
use polymarket_cpp.Pm.Decimal.Parse.{Written, IsWritten, print, denoted}

-- The text denotes n / 10 ^ k.
pub record Denotes (text : Bytes) (n k : ℕ) : Type 0 where
  pub written : Written
  pub is_written : IsWritten written
  pub printed : text ≡ print written
  pub exact :
      value (denoted written).digits * 10 ^ (pos_part (denoted written).exponent + k)
      ≡ n * 10 ^ neg_part (denoted written).exponent

pub record DoubleLibrary : Type 1 where
  pub Double : Type 0
  pub is_finite : Double → Bool
  -- v < 0, v == 0, v > 1 and a < b
  pub is_negative : Double → Bool
  pub is_zero : Double → Bool
  pub above_one : Double → Bool
  pub less : Double → Double → Bool
  -- `1.0 - v`
  pub one_minus : Double → Double
  pub to_chars : Double → Bytes
  pub stod : String → Double
  -- `double(n) / std::pow(10.0, places)`
  pub quotient : ℕ → ℕ → Double
  -- A finite positive double is written as a number, and one that is not above one as a number that
  -- is at most one.
  pub to_chars_written :
      (v : Double)
      → is_finite v ≡ true
      → is_negative v ≡ false
      → is_zero v ≡ false
      → (w : Written) × IsWritten w
        × (to_chars v ≡ print w)
        × (above_one v ≡ false
            → value (denoted w).digits * 10 ^ pos_part (denoted w).exponent
              ≤ 10 ^ neg_part (denoted w).exponent)
  -- A fraction of few digits survives the way through a double.
  pub stod_fraction :
      (text : String) (ds : Bytes)
      → codes text ≡ b'0' ∷ b'.' ∷ ds
      → AllDigits ds
      → length ds ≤ 15
      → 0 < value ds
      → (is_finite (stod text) ≡ true)
        × (is_negative (stod text) ≡ false)
        × (is_zero (stod text) ≡ false)
        × Denotes (to_chars (stod text)) (value ds) (length ds)
  -- So does the quotient by a small power of ten.
  pub quotient_exact :
      (n places : ℕ)
      → places ≤ 15
      → 0 < n
      → n ≤ 10 ^ places
      → (is_finite (quotient n places) ≡ true)
        × (is_negative (quotient n places) ≡ false)
        × (is_zero (quotient n places) ≡ false)
        × (above_one (quotient n places) ≡ false)
        × Denotes (to_chars (quotient n places)) n places
