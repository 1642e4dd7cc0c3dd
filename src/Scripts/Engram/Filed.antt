-- ===== src/Scripts/Engram/Filed.antt =====
-- Under which heading the index of engram-index.go shows a note.
use mathlib.Core.List.{Permᴰ}
use mathlib.Core.List.Permᴰ
use mascotapp.Base.{◌≡◌, true, List, ◌++◌}
use mascotapp.Scripts.Engram.{Entry}
use mascotapp.Scripts.Engram.Index.{queue_prefix, is_undecided}

-- What the heading says of a row.
abbrev pub IsAwaiting : Entry → Type 0
IsAwaiting e = (is_undecided e ≡ true) × (e.link ≡ queue_prefix ++ e.file)
