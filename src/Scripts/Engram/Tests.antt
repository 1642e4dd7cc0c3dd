-- ===== src/Scripts/Engram/Tests.antt =====
-- An index of a note that was saved, one that waits, one that was rejected and a file without frontmatter.
use mascotapp.Base.{◌≤◌, List, [], ◌∷◌, ◌++◌, some, Bytes, codes, All, length}
use mascotapp.Scripts.Engram.{Entry, summarize}
use mascotapp.Scripts.Engram.Index.{Found, vault_prefix, queue_prefix}
use mascotapp.Scripts.Engram.Summary.{InCell, summarize-InCell}

abbrev file_of : List Bytes → Bytes
file_of [] = []
file_of (line ∷ lines) = line ++ 10 ∷ file_of lines

abbrev saved_file : Bytes
saved_file = file_of (
    codes "---"
    ∷ codes "observation_id: \"7\""
    ∷ codes "topic_key: a/b/c"
    ∷ codes "---"
    ∷ codes "# Head"
    ∷ []
    ∷ codes "Kept |  here"
    ∷ codes "**now**"
    ∷ []
    ∷ codes "more"
    ∷ [])

abbrev waiting_file : Bytes
waiting_file = file_of (codes "---" ∷ codes "task: T1" ∷ codes "---" ∷ codes "Wait" ∷ [])

abbrev rejected_file : Bytes
rejected_file = file_of (codes "---" ∷ codes "disposition: wrong" ∷ codes "---" ∷ [])

abbrev vault : List Found
vault = (codes "s.md", some saved_file) ∷ []

abbrev queue : List Found
queue =
    (codes "w.md", some waiting_file)
    ∷ (codes "r.md", some rejected_file)
    ∷ (codes "plain.md", some (codes "text"))
    ∷ []

abbrev saved_note : Entry
saved_note = record {
  fields = (codes "topic_key", codes "a/b/c") ∷ (codes "observation_id", codes "7") ∷ [];
  file = codes "s.md";
  summary = codes "Kept / here now";
  link = vault_prefix ++ codes "s.md";
}

abbrev rejected_note : Entry
rejected_note = record {
  fields = (codes "disposition", codes "wrong") ∷ [];
  file = codes "r.md";
  summary = 8212 ∷ [];
  link = queue_prefix ++ codes "r.md";
}

abbrev waiting_note : Entry
waiting_note = record {
  fields = (codes "task", codes "T1") ∷ [];
  file = codes "w.md";
  summary = codes "Wait";
  link = queue_prefix ++ codes "w.md";
}

abbrev all_notes : List Entry
all_notes = saved_note ∷ rejected_note ∷ waiting_note ∷ []

summarize-InCell_example :
    All InCell (summarize (file_of (codes "a|b" ∷ [])))
    × (length (summarize (file_of (codes "a|b" ∷ []))) ≤ 130)
summarize-InCell_example = summarize-InCell (file_of (codes "a|b" ∷ []))
