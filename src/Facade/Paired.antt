-- ===== src/Facade/Paired.antt =====
-- The run driver and the oracles together: no answer of a run is lost when its ops are paired.
use propsim.Core.Node.{Node}
