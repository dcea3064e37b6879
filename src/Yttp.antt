-- ===== src/Yttp.antt =====
-- What the program uses of the crate `yttp`.
use mockinx.Common.{Option}
use mockinx.Text.{Text}
use mockinx.Json.{Map}

pub record Yttp : Type 0 where
  -- the method that a shortcut key stands for
  pub resolve_method : Text → Option Text
  -- header shortcuts written out, in place
  pub expand_headers : Map → Map
