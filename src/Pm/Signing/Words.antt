-- ===== src/Pm/Signing/Words.antt =====
-- Texts made of 32-byte words: the words can be read back, so can numbers and addresses from a word.
use polymarket_cpp.Prelude.{
  ℕ, zero, suc, ◌<◌, ◌≡◌, ◌≢◌, refl, sym, ap, ◌∙◌, ◌⊎◌, inl, inr, List, [], ◌∷◌, ◌++◌, Bytes, arith,
  length, drop, All, bytes_eq, bytes_eq_sound, bytes_eq_refl, Bool-cases,
}
use polymarket_cpp.Pm.U256.{U256Library, u256_mod}
use polymarket_cpp.Pm.Crypto.{CryptoLibrary, address_word, be_value}

abbrev pub concat : List Bytes → Bytes
concat [] = []
concat (w ∷ ws) = w ++ concat ws

abbrev pub IsWord : Bytes → Type 0
IsWord w = length w ≡ 32

abbrev pub word_at : ℕ → List Bytes → Bytes
word_at i [] = []
word_at zero (w ∷ ws) = w
word_at (suc i) (w ∷ ws) = word_at i ws

pub append_split :
    (xs us ys vs : Bytes) → length xs ≡ length us → xs ++ ys ≡ us ++ vs → (xs ≡ us) × (ys ≡ vs)
append_split [] [] ys vs h e = (refl, e)
append_split [] (u ∷ us) ys vs h e = absurd (omega arith)
append_split (x ∷ xs) [] ys vs h e = absurd (omega arith)
append_split (x ∷ xs) (u ∷ us) ys vs h e =
    let rest = append_split xs us ys vs (omega arith) (cc) in
    let first : x ≡ u = cc in
    let others = rest.0 in let both : x ∷ xs ≡ u ∷ us = cc in (both, rest.1)

pub concat-injective :
    (vs ws : List Bytes)
    → All IsWord vs
    → All IsWord ws
    → length vs ≡ length ws
    → concat vs ≡ concat ws
    → vs ≡ ws
concat-injective [] [] hv hw n e = refl
concat-injective [] (w ∷ ws) hv hw n e = absurd (omega arith)
concat-injective (v ∷ vs) [] hv hw n e = absurd (omega arith)
concat-injective (v ∷ vs) (w ∷ ws) hv hw n e =
    let first = append_split v w (concat vs) (concat ws) (hv.0 ∙ sym hw.0) e in
    let rest = concat-injective vs ws hv.1 hw.1 (omega arith) first.1 in let head = first.0 in cc

pub address_word-injective : (a b : Bytes) → address_word a ≡ address_word b → a ≡ b
address_word-injective a b e = ap (drop 12) e

pub address_word-IsWord : (a : Bytes) → length a ≡ 20 → IsWord (address_word a)
address_word-IsWord a h = omega (arith, h)

module _ (big : U256Library) (crypto : CryptoLibrary big) where
  pub word-injective :
      (m n : ℕ) → m < u256_mod → n < u256_mod → crypto.word m ≡ crypto.word n → m ≡ n
  word-injective m n hm hn e =
      sym (crypto.be_value-word m hm) ∙ ap be_value e ∙ crypto.be_value-word n hn

  -- Two texts with one hash.
  abbrev pub Collision : Type 0
  Collision = (x : Bytes) × (y : Bytes) × (x ≢ y) × (crypto.keccak256 x ≡ crypto.keccak256 y)

  pub keccak-cases : (x y : Bytes) → crypto.keccak256 x ≡ crypto.keccak256 y → (x ≡ y) ⊎ Collision
  keccak-cases x y h = elim (Bool-cases (bytes_eq x y)) [
    | inl same ↦ inl (bytes_eq_sound x y same)
    | inr other ↦ inr (x, y, (λ e. ground (arith, bytes_eq_refl x)), h)
  ]
