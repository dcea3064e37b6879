-- ===== src/Serve/Runtime/Truncation.antt =====
-- src/serve/behavior_types.rs and src/serve/runtime.rs: the limit that is written against the one in force.
use mockinx.Yttp.{Yttp}
