-- ===== src/Scripts/Engram.antt =====
-- scripts/engram-index.go: the index of the notes that the vault and the queue hold. The files that the
-- two directories have, with what reading each one brings, are the input; the prose of the index, which
-- does not depend on it, is left out.
pub mod Index
mod Collected
pub mod Grouped
pub mod Filed
pub mod Summary
mod Tests
use mascotapp.Base.{
  ℕ, ◌-◌, Bool, true, false, not, ◌&&◌, ◌||◌, List, [], ◌∷◌, ◌++◌, Option, none, some, Bytes, codes,
  ◌==◌, ◌=ᵇ◌, leb, ltb, is_empty, length, split, take, strip_prefix, trim_space, if◌then◌else◌,
}
use mascotapp.Scripts.Text.{
  has_prefix, trim_left_of, trim_right_of, is_white, collapse, is_trailing,
}

-- The dash that stands for what is missing: the code point of an em dash.
abbrev pub dash : Bytes
dash = 8212 ∷ []

abbrev pub summary_limit : ℕ
summary_limit = 130

-- fields[key], which is "" for a key that is not there.
unfoldable pub field : Bytes → List (Bytes × Bytes) → Bytes
field key [] = []
field key ((k, v) ∷ fields) = let later = field key fields in if k =ᵇ key then v else later

pub record Entry : Type 0 where
  pub fields : List (Bytes × Bytes)
  pub file : Bytes
  pub summary : Bytes
  pub link : Bytes

-- entry.get
unfoldable pub get : Entry → Bytes → Bytes
unfolding field
get e key = let value = field key e.fields in if is_empty value then dash else value

-- parse

-- "\n---\n" or "\n---\r\n" here, perhaps after a carriage return: the text after it.
unfoldable pub closing : Bytes → Option Bytes
closing s =
    let opened : Option Bytes = elim (strip_prefix (10 ∷ codes "---") s) [
      | some rest ↦ some rest
      | none ↦ strip_prefix (13 ∷ 10 ∷ codes "---") s
    ] in
    elim opened [
      | none ↦ none
      | some rest ↦ elim (strip_prefix (10 ∷ []) rest) [
        | some body ↦ some body
        | none ↦ strip_prefix (13 ∷ 10 ∷ []) rest
      ]
    ]

-- The two groups of frontmatterRe, after its first line: the shortest text before a closing line, and
-- the text after that line.
unfoldable pub until_closing : Bytes → Option (Bytes × Bytes)
unfolding closing
until_closing [] = none
until_closing (c ∷ s) = elim (closing (c ∷ s)) [
  | some body ↦ some ([], body)
  | none ↦ elim (until_closing s) [ none ↦ none | some groups ↦ some (c ∷ groups.0, groups.1) ]
]

-- frontmatterRe.FindSubmatch
unfoldable pub frontmatter : Bytes → Option (Bytes × Bytes)
unfolding until_closing
frontmatter content = elim (strip_prefix (codes "---" ++ 10 ∷ []) content) [
  | some rest ↦ until_closing rest
  | none ↦ elim (strip_prefix (codes "---" ++ 13 ∷ 10 ∷ []) content) [
    | some rest ↦ until_closing rest
    | none ↦ none
  ]
]

-- [a-z_]
unfoldable pub is_key : ℕ → Bool
is_key c = (leb b'a' c && leb c b'z') || c == b'_'

-- The first group of scalarRe and the text after the colon, for the characters of the key so far.
unfoldable pub scalar_from : Bytes → Bytes → Option (Bytes × Bytes)
unfolding is_key
scalar_from key [] = none
scalar_from key (c ∷ s) =
    let longer = scalar_from (key ++ c ∷ []) s in
    if is_key c then longer else if c == b':' && not (is_empty key) then some (key, s) else none

-- What the loop of parse makes of one line. White space before a value is trimmed with the rest.
unfoldable pub scalar : Bytes → Option (Bytes × Bytes)
unfolding scalar_from
scalar line = elim (scalar_from [] (trim_right_of (λ c. c == 13) line)) [
  | none ↦ none
  | some (key, value) ↦
      let quote = λ (c : ℕ). c == 34 in
      some (key, trim_right_of quote (trim_left_of quote (trim_space value)))
]

-- The loop of parse: a later line for a key takes the place of an earlier one.
unfoldable pub scalars : List (Bytes × Bytes) → List Bytes → List (Bytes × Bytes)
unfolding scalar
scalars fields [] = fields
scalars fields (line ∷ lines) = elim (scalar line) [
  | none ↦ scalars fields lines
  | some entry ↦ scalars (entry ∷ fields) lines
]

-- summarize

-- A heading, a rule, a table or a quotation.
unfoldable pub is_skipped : Bytes → Bool
unfolding has_prefix
is_skipped line =
    has_prefix (codes "#") line
    || has_prefix (codes "---") line
    || has_prefix (codes "|") line
    || has_prefix (codes ">") line

-- The loop of summarize over the lines, with the paragraph so far.
unfoldable pub paragraph_from : List Bytes → List Bytes → List Bytes
unfolding is_skipped
paragraph_from paragraph [] = paragraph
paragraph_from paragraph (raw ∷ lines) =
    let line = trim_space raw in
    let next = if is_skipped line || is_empty line then paragraph else paragraph ++ line ∷ [] in
    let rest = paragraph_from next lines in
    let begun : Bool = elim paragraph [ [] ↦ false | l ∷ ls ↦ true ] in
    if is_empty line && begun then paragraph else rest

-- strings.Join with a space.
unfoldable pub join_spaces : List Bytes → Bytes
join_spaces [] = []
join_spaces (line ∷ []) = line
join_spaces (line ∷ next ∷ lines) = line ++ 32 ∷ join_spaces (next ∷ lines)

-- One character of the replacer, after a star that is still to be written if `held`.
unfoldable pub cell_char : Bool → ℕ → Bytes
cell_char held c =
    (if held then b'*' ∷ [] else [])
    ++ (if c == b'|' then b'/' ∷ [] else if c == b'`' then [] else c ∷ [])

-- strings.NewReplacer("**", "", "|", "/", "`", ""). `held` says that a star has been read that may
-- begin a pair.
unfoldable pub replaced : Bool → Bytes → Bytes
unfolding cell_char
replaced held [] = if held then b'*' ∷ [] else []
replaced held (c ∷ s) =
    let star = c == b'*' in
    let rest = replaced (star && not held) s in if star then rest else cell_char held c ++ rest

-- The end of summarize, on the joined paragraph.
unfoldable pub shorten : Bytes → Bytes
unfolding replaced
shorten joined =
    let text = trim_space (collapse false (replaced false joined)) in
    if leb (length text) summary_limit
    then text
    else trim_right_of is_trailing (take (summary_limit - 1) text) ++ 8230 ∷ []

-- summarize
unfoldable pub summarize : Bytes → Bytes
unfolding paragraph_from join_spaces shorten
summarize body = elim (paragraph_from [] (split 10 body)) [
  | [] ↦ dash
  | line ∷ lines ↦ shorten (join_spaces (line ∷ lines))
]

-- parse, on the base name of the path and what the file holds. `none` is a file without frontmatter.
unfoldable pub parse : Bytes → Bytes → Bytes → Option Entry
unfolding frontmatter scalars summarize
parse link_prefix base content = elim (frontmatter content) [
  | none ↦ none
  | some (head, body) ↦ some (record {
    fields = scalars [] (split 10 head);
    file = base;
    summary = summarize body;
    link = link_prefix ++ base;
  })
]
