-- ===== src/Switch/Answer.antt =====
-- Two frames in a row: the answer to an address that the first one taught.
use vde.Switch.{Switch}
use vde.Switch.Frame.{Frame}
