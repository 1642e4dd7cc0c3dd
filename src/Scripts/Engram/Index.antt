-- ===== src/Scripts/Engram/Index.antt =====
-- The notes that main of scripts/engram-index.go collects, and the tables that render makes of them.
use mascotapp.Base.{
  ℕ, Bool, true, false, not, ◌&&◌, List, [], ◌∷◌, ◌++◌, map, Option, none, some, Bytes, codes, ◌=ᵇ◌,
  is_empty, length, split, cut, trim_space, if◌then◌else◌,
}
use mascotapp.Base.Results.{Result, pass, fail}
use mascotapp.Base.Sorting.{not_after, sort_by}
use mascotapp.Scripts.Engram.{dash, field, Entry, get, parse}

-- What main says on the error stream.
pub data Warning : Type 0 where
  no_frontmatter decided_nowhere : Bytes → Warning

-- The errors with which main ends.
pub data IndexError : Type 0 where
  unreadable : Bytes → IndexError
  no_notes : IndexError

-- A file of a directory: its base name, and what os.ReadFile brings.
abbrev pub Found : Type 0
Found = Bytes × Option Bytes

abbrev pub vault_prefix : Bytes
vault_prefix = codes "../70-conocimiento/"

abbrev pub queue_prefix : Bytes
queue_prefix = codes "../../../.engram/queue/"

-- A note with neither an observation_id nor a disposition.
unfoldable pub is_undecided : Entry → Bool
unfolding field
is_undecided e =
    is_empty (field (codes "observation_id") e.fields)
    && is_empty (field (codes "disposition") e.fields)

-- The inner loop of main.
unfoldable pub collect : Bytes → List Found → Result IndexError (List Entry × List Warning)
unfolding parse is_undecided
collect prefix [] = pass ([], [])
collect prefix ((base, none) ∷ files) = fail (unreadable base)
collect prefix ((base, some content) ∷ files) = elim (collect prefix files) [
  | fail e ↦ fail e
  | pass (entries, warnings) ↦ elim (parse prefix base content) [
    | none ↦ pass (entries, no_frontmatter base ∷ warnings)
    | some e ↦
        if (prefix =ᵇ vault_prefix) && is_undecided e
        then pass (entries, decided_nowhere base ∷ warnings)
        else pass (e ∷ entries, warnings)
  ]
]

abbrev pub by_name : List Found → List Found
by_name files = sort_by (λ f g. not_after f.0 g.0) files

-- The outer loop of main, over its two sources.
unfoldable pub notes : List Found → List Found → Result IndexError (List Entry × List Warning)
unfolding collect
notes vault queue = elim (collect vault_prefix (by_name vault)) [
  | fail e ↦ fail e
  | pass (approved, warnings) ↦ elim (collect queue_prefix (by_name queue)) [
    | fail e ↦ fail e
    | pass (queued, more) ↦ pass (approved ++ queued, warnings ++ more)
  ]
]

-- render

pub data State : Type 0 where
  saved pending discarded : State

-- The switch of render.
unfoldable pub state_of : Entry → State
unfolding field
state_of e =
    if not (is_empty (field (codes "observation_id") e.fields))
    then saved
    else if not (is_empty (field (codes "disposition") e.fields))
    then discarded
    else pending

abbrev pub same_state : State → State → Bool
same_state saved saved = true
same_state pending pending = true
same_state discarded discarded = true
same_state _ _ = false

-- The loop of render that appends every entry to the slice of its state: one of the slices.
unfoldable pub in_state : State → List Entry → List Entry
unfolding state_of
in_state s [] = []
in_state s (e ∷ entries) =
    let rest = in_state s entries in if same_state s (state_of e) then e ∷ rest else rest

-- The namespace of a topic key: its first two segments, if it has more than two.
unfoldable pub namespace_of : Entry → Bytes
unfolding get
namespace_of e =
    let topic = get e (codes "topic_key") in
    elim (split b'/' topic) [
      | [] ↦ topic
      | first ∷ [] ↦ topic
      | first ∷ second ∷ [] ↦ topic
      | first ∷ second ∷ third ∷ rest ↦ first ++ b'/' ∷ second
    ]

-- byNamespace[namespace] = append(byNamespace[namespace], e)
unfoldable pub append_at : Bytes → Entry → List (Bytes × List Entry) → List (Bytes × List Entry)
append_at key e [] = (key, e ∷ []) ∷ []
append_at key e ((k, group) ∷ groups) =
    let rest = append_at key e groups in
    if k =ᵇ key then (k, group ++ e ∷ []) ∷ groups else (k, group) ∷ rest

unfoldable pub by_namespace : List (Bytes × List Entry) → List Entry → List (Bytes × List Entry)
unfolding append_at namespace_of
by_namespace groups [] = groups
by_namespace groups (e ∷ entries) = by_namespace (append_at (namespace_of e) e groups) entries

-- The order of the rows of a group.
unfoldable pub row_first : Entry → Entry → Bool
unfolding get
row_first e f =
    if get e (codes "task") =ᵇ get f (codes "task")
    then not_after e.file f.file
    else not_after (get e (codes "task")) (get f (codes "task"))

-- The entries of each table, in the order of its rows.
pub record Sections : Type 0 where
  pub awaiting : List Entry
  pub rejected : List Entry
  pub groups : List (Bytes × List Entry)

unfoldable pub sections : List Entry → Sections
unfolding in_state by_namespace row_first
sections entries = record {
  awaiting = sort_by (λ e f. not_after e.file f.file) (in_state pending entries);
  rejected = sort_by (λ e f. not_after e.file f.file) (in_state discarded entries);
  groups =
      map (λ group. (group.0, sort_by row_first group.1))
        (sort_by (λ g h. not_after g.0 h.0) (by_namespace [] (in_state saved entries)));
}

-- The cells of a row of the first table.
unfoldable pub pending_row : Entry → List Bytes
unfolding get
pending_row e =
    get e (codes "task")
    ∷ get e (codes "type")
    ∷ get e (codes "score")
    ∷ e.file
    ∷ e.link
    ∷ e.summary
    ∷ []

-- The text before the first '#', trimmed, if there is one.
unfoldable pub before_hash : Bytes → Bytes
before_hash text = elim (cut b'#' text) [ none ↦ text | some (before, after) ↦ trim_space before ]

-- The cells of a row of the second table.
unfoldable pub discarded_row : Entry → List Bytes
unfolding get field before_hash
discarded_row e =
    let replacement = before_hash (field (codes "superseded_by") e.fields) in
    get e (codes "task")
    ∷ e.file
    ∷ e.link
    ∷ get e (codes "disposition")
    ∷ (if is_empty replacement then dash else replacement)
    ∷ []

abbrev pub last_of : Bytes → List Bytes → Bytes
last_of segment [] = segment
last_of segment (next ∷ rest) = last_of next rest

-- The cells of a row of a group.
unfoldable pub saved_row : Entry → List Bytes
unfolding get field
saved_row e =
    get e (codes "task")
    ∷ last_of [] (split b'/' (get e (codes "topic_key")))
    ∷ get e (codes "score")
    ∷ e.file
    ∷ e.link
    ∷ field (codes "observation_id") e.fields
    ∷ e.summary
    ∷ []

-- What render writes: its four numbers, and the rows of its tables.
pub record Rendered : Type 0 where
  pub counts : ℕ × ℕ × ℕ × ℕ
  pub awaiting_rows : List (List Bytes)
  pub rejected_rows : List (List Bytes)
  pub group_rows : List (Bytes × ℕ × List (List Bytes))

unfoldable pub render : List Entry → Rendered
unfolding sections pending_row discarded_row saved_row
render entries =
    let s = sections entries in
    record {
      counts = (
        length entries,
        length (in_state saved entries),
        length (in_state pending entries),
        length (in_state discarded entries),
      );
      awaiting_rows = map pending_row s.awaiting;
      rejected_rows = map discarded_row s.rejected;
      group_rows = map (λ group. (group.0, length group.1, map saved_row group.1)) s.groups;
    }

-- main, between the directories and the file that it writes.
unfoldable pub index : List Found → List Found → Result IndexError (Rendered × List Warning)
unfolding notes render
index vault queue = elim (notes vault queue) [
  | fail e ↦ fail e
  | pass (entries, warnings) ↦ elim entries [
    | [] ↦ fail no_notes
    | e ∷ es ↦ pass (render (e ∷ es), warnings)
  ]
]
