-- ===== src/Btier/Metrics/Tests.antt =====
-- The metrics word at concrete values.
use cxxlab.Prelude.{◌≡◌, refl}
use cxxlab.Btier.Metrics.{pack}

packed : pack 3 5 63 1 7 ≡ 0x7_7f00_5003
unfolding pack
packed = refl
