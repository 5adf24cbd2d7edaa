-- ===== src/Files/Listed.antt =====
-- filemanager.go: what a listing shows (fileList, fileListJSON).
use pfortainer.Base.{List, [], Text, text_eq, if◌then◌else◌}
use pfortainer.FilePath.{root}

-- The path that a request names: the root where it names none.
abbrev requested : Text → Text
requested raw = if text_eq raw [] then root else raw
