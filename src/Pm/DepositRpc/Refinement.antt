-- ===== src/Pm/DepositRpc/Refinement.antt =====
-- Against a node that answers for a chain, resolving an owner's wallet is the policy of the SDK.
use polymarket_cpp.Prelude.{
  ◌≡◌, refl, sym, ap, ◌∙◌, inl, inr, Bool, false, ◌||◌, Bytes, codes, length, All, Bool-cases,
  if◌then◌else◌, ok,
}
use polymarket_cpp.Pm.U256.{U256Library}
use polymarket_cpp.Pm.Crypto.{CryptoLibrary, address_word}
use polymarket_cpp.Pm.Hex.{IsByte, to_hex0x, eth_address_from_hex}
use polymarket_cpp.Pm.DepositWallet.{
  deposit_wallet_factory, derive_deposit_wallet_uups, derive_deposit_wallet_beacon,
}
use polymarket_cpp.Pm.DepositRpc.{
  DepositWalletKind, uups_kind, beacon_kind, DepositWalletResolution, selected_deployed, RpcResult,
  returned, raised, Run, and_then, lift, is_zero_address, zero_address, beacon_params, code_params,
  deployed, beacon_candidate, selection, resolve_deposit_wallet,
}
use polymarket_cpp.Pm.DepositRpc.Answers.{
  any_nonzero, has_contract_code-to_hex0x, decode_abi_address-word,
}

-- What a chain has: the beacon of the factory (zero where it has none) and the code at each address.
pub record Chain : Type 0 where
  pub beacon : Bytes
  pub bytecode : Bytes → Bytes

pub record IsChain (chain : Chain) : Type 0 where
  pub beacon_size : length chain.beacon ≡ 20
  pub beacon_bytes : All IsByte chain.beacon
  pub code_bytes : (a : Bytes) → All IsByte (chain.bytecode a)

abbrev pub has_code : Chain → Bytes → Bool
has_code chain a = any_nonzero (chain.bytecode a)

-- A callback that answers for the chain, in any state.
pub record AnswersFor (chain : Chain) {S : Type 0} (rpc_call : Bytes → Bytes → Run S Bytes)
    : Type 0 where
  pub beacon_answer :
      (factory : Bytes) (s : S)
      → eth_address_from_hex (codes deposit_wallet_factory) ≡ ok factory
      → (rpc_call (codes "eth_call") (beacon_params factory) s).1
        ≡ returned (to_hex0x (address_word chain.beacon))
  pub code_answer :
      (a : Bytes) (s : S)
      → (rpc_call (codes "eth_getCode") (code_params a) s).1
        ≡ returned (to_hex0x (chain.bytecode a))

-- No beacon: UUPS. A deployed UUPS wallet: UUPS. Otherwise the wallet of the beacon.
abbrev pub policy : Chain → Bytes → Bytes → DepositWalletKind × Bytes
policy chain uups beacon =
    if is_zero_address chain.beacon || has_code chain uups
    then (uups_kind, uups)
    else (beacon_kind, beacon)

abbrev pub Implements : Chain → Bytes → Bytes → Bytes → DepositWalletResolution → Type 0
Implements chain owner uups beacon r =
    (r.owner ≡ owner)
    × (r.factory_beacon ≡ chain.beacon)
    × ((r.selected_kind, r.selected) ≡ policy chain uups beacon)
    × (selected_deployed r ≡ has_code chain r.selected)

and_then-returned :
    {S A B : Type 0} (p : S × RpcResult A) (f : A → Run S B) {a : A}
    → p.1 ≡ returned a
    → and_then p f ≡ f a p.0
and_then-returned (s, returned a) f h = ap (λ x. f x s) (cc)
and_then-returned (s, raised e) f h = cc

module _ (big : U256Library) (crypto : CryptoLibrary big) where
  factory_read :
      (factory : Bytes) × (eth_address_from_hex (codes deposit_wallet_factory) ≡ ok factory)
  unfolding eth_address_from_hex
  factory_read = (_, refl)

  uups_derived :
      (owner : Bytes) → (u : Bytes) × (derive_deposit_wallet_uups big crypto owner ≡ ok u)
  unfolding derive_deposit_wallet_uups eth_address_from_hex
  uups_derived owner = (_, refl)

  beacon_derived :
      (owner beacon : Bytes)
      → (b : Bytes) × (derive_deposit_wallet_beacon big crypto owner beacon ≡ ok b)
  unfolding derive_deposit_wallet_beacon eth_address_from_hex
  beacon_derived owner beacon = (_, refl)

  module _ {S : Type 0} (rpc_call : Bytes → Bytes → Run S Bytes) (chain : Chain)
      (lawful : IsChain chain) (answers : AnswersFor chain rpc_call) where
    deployed_answer :
        (a : Bytes) (s : S) → (deployed big crypto rpc_call a s).1 ≡ returned (has_code chain a)
    deployed_answer a s =
        let code = rpc_call (codes "eth_getCode") (code_params a) s in
        ap (λ p. p.1) (and_then-returned code _ (answers.code_answer a s))
        ∙ ap (λ r. (lift {S = S} r code.0).1)
            (has_contract_code-to_hex0x (chain.bytecode a) (lawful.code_bytes a))

    -- The beacon candidate that a resolution reports.
    abbrev candidate : Bytes → Bytes × Bool
    candidate b =
        if is_zero_address chain.beacon then (zero_address, false) else (b, has_code chain b)

    asked_answer :
        (owner b : Bytes) (s : S)
        → derive_deposit_wallet_beacon big crypto owner chain.beacon ≡ ok b
        → (beacon_candidate big crypto rpc_call owner chain.beacon s).1 ≡ returned (candidate b)
    asked_answer owner b s hb = elim (Bool-cases (is_zero_address chain.beacon)) [
      | inl none_there ↦ rw none_there refl
      | inr there ↦
          rw (there, hb)
            (ap (λ p. p.1)
              (and_then-returned (deployed big crypto rpc_call b s) _ (deployed_answer b s)))
    ]

    resolve-selection :
        (owner u b : Bytes) (s : S)
        → derive_deposit_wallet_uups big crypto owner ≡ ok u
        → derive_deposit_wallet_beacon big crypto owner chain.beacon ≡ ok b
        → (resolve_deposit_wallet big crypto rpc_call owner s).1
          ≡ returned
              (selection big crypto rpc_call owner chain.beacon u (has_code chain u) (candidate b))
    unfolding resolve_deposit_wallet
    resolve-selection owner u b s hu hb =
        let (f, hf) = factory_read in
        let asked = rpc_call (codes "eth_call") (beacon_params f) s in
        let there = deployed big crypto rpc_call u asked.0 in
        rw hf (
          ap (λ p. p.1) (and_then-returned asked _ (answers.beacon_answer f s hf))
          ∙ rw (decode_abi_address-word chain.beacon lawful.beacon_bytes lawful.beacon_size, hu)
              (ap (λ p. p.1) (and_then-returned there _ (deployed_answer u asked.0))
                ∙ ap (λ p. p.1)
                    (and_then-returned
                      (beacon_candidate big crypto rpc_call owner chain.beacon there.0) _
                      (asked_answer owner b there.0 hb))))

    selection-Implements :
        (owner u b : Bytes)
        → Implements chain owner u b
            (selection big crypto rpc_call owner chain.beacon u (has_code chain u) (candidate b))
    unfolding selected_deployed
    selection-Implements owner u b = elim (Bool-cases (is_zero_address chain.beacon)) [
      | inl none_there ↦ rw none_there (refl, refl, refl, refl)
      | inr there ↦ elim (Bool-cases (has_code chain u)) [
        | inl old ↦ rw (there, old) (refl, refl, refl, sym old)
        | inr new ↦ rw (there, new) (refl, refl, refl, refl)
      ]
    ]

    -- Against a node that answers for a chain, in whatever state, an owner's wallet is resolved: the two
    -- candidates are derived, and the selected one is the UUPS wallet where the factory has no beacon or
    -- that wallet has code, and the wallet of the beacon otherwise; the result says whether it has code.
    pub resolve-Implements :
        (owner : Bytes) (s : S)
        → (u : Bytes) × (b : Bytes) × (r : DepositWalletResolution) × (derive_deposit_wallet_uups
              big crypto owner
            ≡ ok u)
          × (derive_deposit_wallet_beacon big crypto owner chain.beacon ≡ ok b)
          × ((resolve_deposit_wallet big crypto rpc_call owner s).1 ≡ returned r)
          × Implements chain owner u b r
    resolve-Implements owner s =
        let (u, hu) = uups_derived owner in
        let (b, hb) = beacon_derived owner chain.beacon in
        (u, b, _, hu, hb, resolve-selection owner u b s hu hb, selection-Implements owner u b)
