-- ===== src/Maintenance/Names.antt =====
-- `str.startswith`, `str.endswith` and the parts of a path below the workspace's root
-- (src/axcalib/runtime/maintenance.py).
use text.Mathlib.Text as Text
use axcalib.Prelude.{String, Bool, ◌||◌, ◌==◌, string_eq}

abbrev pub starts_with : String → String → Bool
starts_with s t = Text.starts_with s t

unfoldable pub ends_with : String → String → Bool
ends_with t String.[] = t == ""
ends_with t (String.◌∷◌ c s) = String.◌∷◌ c s == t || ends_with t s
