-- ===== src/Pm/Clob/Preparing.antt =====
-- Every order that `prepare_order` returns says what its arguments ask for.
use polymarket_cpp.Pm.Clob.Says.{Says}
