-- ===== src/Pm/Amounts/Ticks.antt =====
-- The six tick sizes of the rounding table, and what the table gives for each.
use polymarket_cpp.Prelude.{
  ℕ, ◌<◌, ◌≡◌, refl, String, ◌∷◌, arith, Bytes, codes, length, AllDigits, value, str_eq, eq_iff,
  Bool-cases, inl, inr, ok,
}
use polymarket_cpp.Pm.Amounts.{RoundConfig, make_config, config_for}

pub data Tick : Type 0 where
  tenth hundredth half_cent quarter_cent thousandth ten_thousandth : Tick

abbrev pub tick_text : Tick → String
tick_text tenth = "0.1"
tick_text hundredth = "0.01"
tick_text half_cent = "0.005"
tick_text quarter_cent = "0.0025"
tick_text thousandth = "0.001"
tick_text ten_thousandth = "0.0001"

abbrev pub tick_config : Tick → RoundConfig
tick_config tenth = make_config 1 2 3
tick_config hundredth = make_config 2 2 4
tick_config half_cent = make_config 3 2 5
tick_config quarter_cent = make_config 4 2 6
tick_config thousandth = make_config 3 2 5
tick_config ten_thousandth = make_config 4 2 6

-- The tick in units of 10 ^ -price.
abbrev pub tick_units : Tick → ℕ
tick_units tenth = 1
tick_units hundredth = 1
tick_units half_cent = 5
tick_units quarter_cent = 25
tick_units thousandth = 1
tick_units ten_thousandth = 1

-- What stands behind the point.
abbrev pub tick_digits : Tick → Bytes
tick_digits tenth = codes "1"
tick_digits hundredth = codes "01"
tick_digits half_cent = codes "005"
tick_digits quarter_cent = codes "0025"
tick_digits thousandth = codes "001"
tick_digits ten_thousandth = codes "0001"

pub tick_digits-AllDigits : (t : Tick) → AllDigits (tick_digits t)
tick_digits-AllDigits tenth = omega arith
tick_digits-AllDigits hundredth = omega arith
tick_digits-AllDigits half_cent = omega arith
tick_digits-AllDigits quarter_cent = omega arith
tick_digits-AllDigits thousandth = omega arith
tick_digits-AllDigits ten_thousandth = omega arith

pub value-tick_digits : (t : Tick) → value (tick_digits t) ≡ tick_units t
unfolding value
value-tick_digits tenth = refl
value-tick_digits _ = refl

pub length-tick_digits : (t : Tick) → length (tick_digits t) ≡ (tick_config t).price
length-tick_digits tenth = refl
length-tick_digits _ = refl

pub codes-tick_text : (t : Tick) → codes (tick_text t) ≡ b'0' ∷ b'.' ∷ tick_digits t
codes-tick_text tenth = refl
codes-tick_text _ = refl

pub tick_units_pos : (t : Tick) → 0 < tick_units t
tick_units_pos tenth = omega arith
tick_units_pos _ = omega arith

pub config_for-tick_text : (t : Tick) → config_for (tick_text t) ≡ ok (tick_config t)
unfolding config_for
config_for-tick_text tenth = refl
config_for-tick_text _ = refl

-- The table has exactly the six ticks.
pub config_for-cases :
    (tick : String) {rc : RoundConfig}
    → config_for tick ≡ ok rc
    → (t : Tick) × (tick ≡ tick_text t) × (rc ≡ tick_config t)
unfolding config_for
config_for-cases tick h = elim (Bool-cases (str_eq tick "0.1")) [
  | inl e0 ↦ (tenth, (eq_iff tick "0.1").0 e0, ground arith)
  | inr n0 ↦ elim (Bool-cases (str_eq tick "0.01")) [
    | inl e1 ↦ (hundredth, (eq_iff tick "0.01").0 e1, ground arith)
    | inr n1 ↦ elim (Bool-cases (str_eq tick "0.005")) [
      | inl e2 ↦ (half_cent, (eq_iff tick "0.005").0 e2, ground arith)
      | inr n2 ↦ elim (Bool-cases (str_eq tick "0.0025")) [
        | inl e3 ↦ (quarter_cent, (eq_iff tick "0.0025").0 e3, ground arith)
        | inr n3 ↦ elim (Bool-cases (str_eq tick "0.001")) [
          | inl e4 ↦ (thousandth, (eq_iff tick "0.001").0 e4, ground arith)
          | inr n4 ↦ elim (Bool-cases (str_eq tick "0.0001")) [
            | inl e5 ↦ (ten_thousandth, (eq_iff tick "0.0001").0 e5, ground arith)
            | inr n5 ↦ absurd (ground arith)
          ]
        ]
      ]
    ]
  ]
]
