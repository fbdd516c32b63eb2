-- ===== src/Pm.antt =====
-- pm/: the SDK above the transports.
pub mod Decimal
pub mod Double
pub mod U256
pub mod Amounts
pub mod Hex
pub mod Protocol
pub mod AccountRest
pub mod Crypto
pub mod Keys
pub mod Signing
pub mod DepositWallet
pub mod DepositRpc
pub mod Feeds
pub mod Auth
pub mod Relayer
pub mod PublicRest
pub mod Geoblock
pub mod Clob
pub mod Tests
