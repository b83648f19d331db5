-- ===== src/Bohm/Run/Chain.antt =====
-- protocol/Bohm/BohmExecutor.h and BohmManager.h: one batch after another.
use prdcc.Bohm.Run.Setting.{Setting}
