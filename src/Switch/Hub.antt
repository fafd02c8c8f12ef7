-- ===== src/Switch/Hub.antt =====
-- The switch as a hub.
use vde.Switch.{Switch}
use vde.Switch.Frame.{Frame}
