-- ===== src/Pm/DepositWallet/Batch.antt =====
-- What the digest of a batch binds.
use polymarket_cpp.Prelude.{
  ℕ, ◌≤◌, ◌<◌, ◌≡◌, refl, sym, ap, ◌∙◌, ◌⊎◌, inl, inr, List, [], ◌∷◌, ◌++◌, Bytes, arith, length,
  length-append, drop, All, codes, max_u64, append_assoc, append-nil,
}
use polymarket_cpp.Pm.U256.{U256Library, u256_mod}
use polymarket_cpp.Pm.Crypto.{CryptoLibrary, address_word, domain_type}
use polymarket_cpp.Pm.Signing.Words.{
  concat, IsWord, word_at, append_split, concat-injective, address_word-injective,
  address_word-IsWord, word-injective, Collision, keccak-cases,
}
use polymarket_cpp.Pm.DepositWallet.{
  DepositWalletCall, call_type, batch_type, call_encoding, encoded_calls, batch_encoding,
  deposit_wallet_batch_digest,
}

-- A call has an address and a number of 256 bits.
abbrev pub IsCall : {big : U256Library} → DepositWalletCall big → Type 0
IsCall {big} c = (length c.target ≡ 20) × (big.number c.value < u256_mod)

abbrev pub SameCall : {big : U256Library} → DepositWalletCall big → DepositWalletCall big → Type 0
SameCall {big} c d =
    (c.target ≡ d.target) × (big.number c.value ≡ big.number d.value) × (c.call_data ≡ d.call_data)

-- The same calls in the same order.
abbrev pub SameCalls :
    {big : U256Library} → List (DepositWalletCall big) → List (DepositWalletCall big) → Type 0
SameCalls [] [] = Unit {0}
SameCalls [] (d ∷ ds) = ⊥
SameCalls (c ∷ cs) [] = ⊥
SameCalls (c ∷ cs) (d ∷ ds) = SameCall c d × SameCalls cs ds

module _ (big : U256Library) (crypto : CryptoLibrary big) where
  abbrev call_words : DepositWalletCall big → List Bytes
  call_words c =
      crypto.keccak256 (call_type big crypto)
      ∷ address_word c.target
      ∷ crypto.word (big.number c.value)
      ∷ crypto.keccak256 c.call_data
      ∷ []

  call_encoding-words :
      (c : DepositWalletCall big) → call_encoding big crypto c ≡ concat (call_words c)
  unfolding call_encoding
  call_encoding-words c = simp (
    crypto.append_word_lem, crypto.append_address_lem, crypto.append_u256_lem, append_assoc,
    append-nil,
  )

  call_words-All : (c : DepositWalletCall big) → IsCall c → All IsWord (call_words c)
  call_words-All c h = (
    crypto.length-keccak256 (call_type big crypto),
    (
      address_word-IsWord c.target h.0,
      (crypto.length-word (big.number c.value), (crypto.length-keccak256 c.call_data, tt)),
    ),
  )

  call-cases :
      (c d : DepositWalletCall big)
      → IsCall c
      → IsCall d
      → crypto.keccak256 (call_encoding big crypto c)
        ≡ crypto.keccak256 (call_encoding big crypto d)
      → SameCall c d ⊎ Collision big crypto
  call-cases c d hc hd e =
      elim (keccak-cases big crypto (call_encoding big crypto c) (call_encoding big crypto d) e) [
        | inr x ↦ inr x
        | inl same ↦ by_words (
            concat-injective (call_words c) (call_words d) (call_words-All c hc)
              (call_words-All d hd) refl
              (sym (call_encoding-words c) ∙ same ∙ call_encoding-words d))
      ]
    where
      by_words : call_words c ≡ call_words d → SameCall c d ⊎ Collision big crypto
      by_words w = elim (keccak-cases big crypto c.call_data d.call_data (ap (word_at 3) w)) [
        | inr x ↦ inr x
        | inl same_data ↦ inl (
          address_word-injective c.target d.target (ap (word_at 1) w),
          word-injective big crypto (big.number c.value) (big.number d.value) hc.1 hd.1
              (ap (word_at 2) w),
          same_data,
        )
      ]

  -- The hash of a call and what follows it.
  hash_of : DepositWalletCall big → Bytes
  hash_of c = crypto.keccak256 (call_encoding big crypto c)

  calls-cases :
      (cs ds : List (DepositWalletCall big))
      → All IsCall cs
      → All IsCall ds
      → encoded_calls big crypto cs ≡ encoded_calls big crypto ds
      → SameCalls cs ds ⊎ Collision big crypto
  unfolding encoded_calls
  calls-cases [] [] hc hd e = inl tt
  calls-cases [] (d ∷ ds) hc hd e = absurd (
      omega (
        arith,
        ap length e,
        crypto.length-keccak256 (call_encoding big crypto d),
        length-append (crypto.keccak256 (call_encoding big crypto d)) (encoded_calls big crypto ds),
      ))
  calls-cases (c ∷ cs) [] hc hd e = absurd (
      omega (
        arith,
        ap length e,
        crypto.length-keccak256 (call_encoding big crypto c),
        length-append (crypto.keccak256 (call_encoding big crypto c)) (encoded_calls big crypto cs),
      ))
  calls-cases (c ∷ cs) (d ∷ ds) hc hd e =
      let (first, rest) =
        append_split (crypto.keccak256 (call_encoding big crypto c))
          (crypto.keccak256 (call_encoding big crypto d)) (encoded_calls big crypto cs)
          (encoded_calls big crypto ds)
          (crypto.length-keccak256 (call_encoding big crypto c)
            ∙ sym (crypto.length-keccak256 (call_encoding big crypto d)))
          e in
      let others = calls-cases cs ds hc.1 hd.1 rest in
      elim (call-cases c d hc.0 hd.0 first) [
        | inr x ↦ inr x
        | inl same ↦ elim others [ inr x ↦ inr x | inl sames ↦ inl (same, sames) ]
      ]

  abbrev batch_words : Bytes → ℕ → ℕ → List (DepositWalletCall big) → List Bytes
  batch_words wallet nonce deadline calls =
      crypto.keccak256 (batch_type big crypto)
      ∷ address_word wallet
      ∷ crypto.word nonce
      ∷ crypto.word deadline
      ∷ crypto.keccak256 (encoded_calls big crypto calls)
      ∷ []

  batch_encoding-words :
      (wallet : Bytes) (nonce deadline : ℕ) (calls : List (DepositWalletCall big))
      → batch_encoding big crypto wallet nonce deadline calls
        ≡ concat (batch_words wallet nonce deadline calls)
  unfolding batch_encoding
  batch_encoding-words wallet nonce deadline calls = simp (
    crypto.append_word_lem, crypto.append_address_lem, crypto.append_u64_lem, append_assoc,
    append-nil,
  )

  batch_words-All :
      (wallet : Bytes) (nonce deadline : ℕ) (calls : List (DepositWalletCall big))
      → length wallet ≡ 20
      → All IsWord (batch_words wallet nonce deadline calls)
  batch_words-All wallet nonce deadline calls h = (
    crypto.length-keccak256 (batch_type big crypto),
    (
      address_word-IsWord wallet h,
      (
        crypto.length-word nonce,
        (
          crypto.length-word deadline,
          (crypto.length-keccak256 (encoded_calls big crypto calls), tt),
        ),
      ),
    ),
  )

  chain_of :
      (chain : ℕ) (wallet : Bytes) (chain' : ℕ) (wallet' : Bytes)
      → chain < u256_mod
      → chain' < u256_mod
      → length wallet ≡ 20
      → length wallet' ≡ 20
      → crypto.domain_separator (codes "DepositWallet") (codes "1") chain wallet
        ≡ crypto.domain_separator (codes "DepositWallet") (codes "1") chain' wallet'
      → (chain ≡ chain') ⊎ Collision big crypto
  chain_of chain wallet chain' wallet' h h' w w' e =
      elim (keccak-cases big crypto (concat (words chain wallet)) (concat (words chain' wallet')) (
        ap crypto.keccak256 (sym (flat chain wallet))
        ∙ sym (law chain wallet)
        ∙ e
        ∙ law chain' wallet'
        ∙ ap crypto.keccak256 (flat chain' wallet'))) [
          | inr x ↦ inr x
          | inl same ↦ inl (
              word-injective big crypto chain chain' h h' (
                ap (word_at 3) (
                  concat-injective (words chain wallet) (words chain' wallet')
                    (are_words chain wallet w) (are_words chain' wallet' w') refl same)))
        ]
    where
      words : ℕ → Bytes → List Bytes
      words n a =
          crypto.keccak256 domain_type
          ∷ crypto.keccak256 (codes "DepositWallet")
          ∷ crypto.keccak256 (codes "1")
          ∷ crypto.word n
          ∷ address_word a
          ∷ []

      text : ℕ → Bytes → Bytes
      text n a =
          crypto.keccak256 domain_type
          ++ (crypto.keccak256 (codes "DepositWallet")
              ++ (crypto.keccak256 (codes "1") ++ (crypto.word n ++ address_word a)))

      law :
          (n : ℕ) (a : Bytes)
          → crypto.domain_separator (codes "DepositWallet") (codes "1") n a
            ≡ crypto.keccak256 (text n a)
      law n a = crypto.domain_separator_lem (codes "DepositWallet") (codes "1") n a

      flat : (n : ℕ) (a : Bytes) → text n a ≡ concat (words n a)
      flat n a = simp (append-nil)

      are_words : (n : ℕ) (a : Bytes) → length a ≡ 20 → All IsWord (words n a)
      are_words n a h = (
        crypto.length-keccak256 domain_type,
        (
          crypto.length-keccak256 (codes "DepositWallet"),
          (
            crypto.length-keccak256 (codes "1"),
            (crypto.length-word n, (address_word-IsWord a h, tt)),
          ),
        ),
      )

  -- The contents of a batch: the wallet, the nonce, the deadline and the calls in order.
  batch-cases :
      (wallet : Bytes) (nonce deadline : ℕ) (calls : List (DepositWalletCall big)) (wallet' : Bytes)
      (nonce' deadline' : ℕ) (calls' : List (DepositWalletCall big))
      → length wallet ≡ 20
      → length wallet' ≡ 20
      → (nonce ≤ max_u64) × (deadline ≤ max_u64) × (nonce' ≤ max_u64) × (deadline' ≤ max_u64)
      → All IsCall calls
      → All IsCall calls'
      → crypto.keccak256 (batch_encoding big crypto wallet nonce deadline calls)
        ≡ crypto.keccak256 (batch_encoding big crypto wallet' nonce' deadline' calls')
      → ((wallet ≡ wallet') × (nonce ≡ nonce') × (deadline ≡ deadline') × SameCalls calls calls')
        ⊎ Collision big crypto
  batch-cases wallet nonce deadline calls wallet' nonce' deadline' calls' w w' fits hc hc' e =
      elim (keccak-cases big crypto (batch_encoding big crypto wallet nonce deadline calls)
        (batch_encoding big crypto wallet' nonce' deadline' calls') e) [
          | inr x ↦ inr x
          | inl same ↦ by_words (
              concat-injective (batch_words wallet nonce deadline calls)
                (batch_words wallet' nonce' deadline' calls')
                (batch_words-All wallet nonce deadline calls w)
                (batch_words-All wallet' nonce' deadline' calls' w') refl
                (sym (batch_encoding-words wallet nonce deadline calls)
                  ∙ same
                  ∙ batch_encoding-words wallet' nonce' deadline' calls'))
        ]
    where
      by_words :
          batch_words wallet nonce deadline calls ≡ batch_words wallet' nonce' deadline' calls'
          → ((wallet ≡ wallet')
              × (nonce ≡ nonce')
              × (deadline ≡ deadline')
              × SameCalls calls calls')
            ⊎ Collision big crypto
      by_words e =
          elim (keccak-cases big crypto (encoded_calls big crypto calls)
            (encoded_calls big crypto calls') (ap (word_at 4) e)) [
              | inr x ↦ inr x
              | inl same ↦ elim (calls-cases calls calls' hc hc' same) [
                | inr x ↦ inr x
                | inl sames ↦ inl (
                  address_word-injective wallet wallet' (ap (word_at 1) e),
                  word-injective big crypto nonce nonce' (omega (arith, fits.0))
                      (omega (arith, fits.2)) (ap (word_at 2) e),
                  word-injective big crypto deadline deadline' (omega (arith, fits.1))
                      (omega (arith, fits.3)) (ap (word_at 3) e),
                  sames,
                )
              ]
            ]

  -- Two batches of the same digest are for the same chain and wallet, with the same nonce and deadline and
  -- the same calls in the same order, or two different texts with the same keccak256 hash are at hand.
  pub batch_digest-SameCalls :
      (chain : ℕ) (wallet : Bytes) (nonce deadline : ℕ) (calls : List (DepositWalletCall big))
      (chain' : ℕ) (wallet' : Bytes) (nonce' deadline' : ℕ) (calls' : List (DepositWalletCall big))
      → (chain < u256_mod) × (chain' < u256_mod)
      → (length wallet ≡ 20) × (length wallet' ≡ 20)
      → (nonce ≤ max_u64) × (deadline ≤ max_u64) × (nonce' ≤ max_u64) × (deadline' ≤ max_u64)
      → All IsCall calls
      → All IsCall calls'
      → deposit_wallet_batch_digest big crypto chain wallet nonce deadline calls
        ≡ deposit_wallet_batch_digest big crypto chain' wallet' nonce' deadline' calls'
      → ((chain ≡ chain')
          × (wallet ≡ wallet')
          × (nonce ≡ nonce')
          × (deadline ≡ deadline')
          × SameCalls calls calls')
        ⊎ Collision big crypto
  unfolding deposit_wallet_batch_digest
  batch_digest-SameCalls chain wallet nonce deadline calls chain' wallet' nonce' deadline' calls' hn
        w fits hc hc' e =
      let d = crypto.domain_separator (codes "DepositWallet") (codes "1") chain wallet in
      let d' = crypto.domain_separator (codes "DepositWallet") (codes "1") chain' wallet' in
      let x = crypto.keccak256 (batch_encoding big crypto wallet nonce deadline calls) in
      let x' = crypto.keccak256 (batch_encoding big crypto wallet' nonce' deadline' calls') in
      elim (keccak-cases big crypto (0x19 ∷ 0x01 ∷ (d ++ x)) (0x19 ∷ 0x01 ∷ (d' ++ x'))
        (sym (crypto.typed_digest_lem d x) ∙ e ∙ crypto.typed_digest_lem d' x')) [
          | inr c ↦ inr c
          | inl same ↦ both (
              append_split d d' x x' (size chain wallet ∙ sym (size chain' wallet'))
                (ap (drop 2) same))
        ]
    where
      size :
          (n : ℕ) (a : Bytes)
          → length (crypto.domain_separator (codes "DepositWallet") (codes "1") n a) ≡ 32
      size n a =
          ap length (crypto.domain_separator_lem (codes "DepositWallet") (codes "1") n a)
          ∙ crypto.length-keccak256 _

      both :
          (crypto.domain_separator (codes "DepositWallet") (codes "1") chain wallet
              ≡ crypto.domain_separator (codes "DepositWallet") (codes "1") chain' wallet')
            × (crypto.keccak256 (batch_encoding big crypto wallet nonce deadline calls)
                ≡ crypto.keccak256 (batch_encoding big crypto wallet' nonce' deadline' calls'))
          → ((chain ≡ chain')
              × (wallet ≡ wallet')
              × (nonce ≡ nonce')
              × (deadline ≡ deadline')
              × SameCalls calls calls')
            ⊎ Collision big crypto
      both s =
          elim (batch-cases wallet nonce deadline calls wallet' nonce' deadline' calls' w.0 w.1 fits
            hc hc' s.1) [
              | inr c ↦ inr c
              | inl same ↦ elim (chain_of chain wallet chain' wallet' hn.0 hn.1 w.0 w.1 s.0) [
                | inr c ↦ inr c
                | inl chains ↦ inl (chains, same.0, same.1, same.2, same.3)
              ]
            ]
