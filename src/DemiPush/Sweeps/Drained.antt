-- ===== src/DemiPush/Sweeps/Drained.antt =====
-- That the sweep drains a kind (api/helpers/demiPushSweep.js).
use eagle_api.Prelude.{List}
