-- ===== src/Rag/Corpus.antt =====
-- rag/corpus.py: the parser of the corpus files, on the characters of their text.
pub mod Blocks
pub mod Render
pub mod Split
pub mod RoundTrip
use compliance_agent_platfor.Base.{
  ℕ, zero, suc, String, ◌≡◌, Bool, true, false, not, ◌&&◌, ◌||◌, List, [], ◌∷◌, ◌++◌, map, Option,
  none, some, ltb, leb, ◌==◌, is_empty, truthy, if◌then◌else◌,
}
use Prim.Native.Char.{Char, code}
use compliance_agent_platfor.Base.Dict.{Dict, lookup, insert}
use compliance_agent_platfor.Base.Text.{chars, from_chars}
use compliance_agent_platfor.Error.{Result, ok, err, and_then}
use compliance_agent_platfor.Guardrails.Unicode.{Unicode}
use compliance_agent_platfor.Rag.Faiss.{validate_chunk}
use compliance_agent_platfor.Schemas.Retrieval.{DocumentChunk, DocumentMetadata}

abbrev pub Chars : Type 0
Chars = List Char

-- `text.replace("\x00", "")`
abbrev pub without_nul : Chars → Chars
without_nul [] = []
without_nul (c ∷ cs) = let rest = without_nul cs in if code c == 0 then rest else c ∷ rest

-- The characters at which `str.splitlines` ends a line
abbrev pub is_line_break : ℕ → Bool
is_line_break c =
    (leb 10 c && leb c 13) || (leb 28 c && leb c 30) || c == 133 || c == 8232 || c == 8233

abbrev pub add_to_first : Char → List Chars → List Chars
add_to_first c [] = (c ∷ []) ∷ []
add_to_first c (line ∷ lines) = (c ∷ line) ∷ lines

abbrev pub starts_with_newline : Chars → Bool
starts_with_newline [] = false
starts_with_newline (c ∷ cs) = code c == 10

-- `str.splitlines`: "\r\n" is one break, and nothing follows the last one.
unfoldable pub splitlines : Chars → List Chars
splitlines [] = []
splitlines (c ∷ cs) =
    let rest = splitlines cs in
    if code c == 13 && starts_with_newline cs
    then rest
    else if is_line_break (code c)
    then [] ∷ rest
    else add_to_first c rest

-- `[A-Z_]`
abbrev pub is_tag_char : ℕ → Bool
is_tag_char c = (leb b'A' c && leb c b'Z') || c == b'_'

module _ (u : Unicode) where
  -- `\s?`
  abbrev pub skip_space : Chars → Chars
  skip_space [] = []
  skip_space (c ∷ cs) = if u.is_space (code c) then cs else c ∷ cs

  -- `:\s?(.*)$`
  abbrev pub after_bracket : Chars → Option (Chars × Chars)
  after_bracket [] = none
  after_bracket (c ∷ cs) = if code c == b':' then some ([], skip_space cs) else none

  abbrev pub with_char : Char → Option (Chars × Chars) → Option (Chars × Chars)
  with_char c none = none
  with_char c (some p) = some (c ∷ p.0, p.1)

  -- `[A-Z_]*\]:\s?(.*)$`
  unfoldable pub read_tag : Chars → Option (Chars × Chars)
  read_tag [] = none
  read_tag (c ∷ cs) =
      let rest = read_tag cs in
      if is_tag_char (code c)
      then with_char c rest
      else if code c == b']'
      then after_bracket cs
      else none

  -- The tag has a character at least.
  abbrev pub named_tag : Option (Chars × Chars) → Option (Chars × Chars)
  named_tag none = none
  named_tag (some p) = if is_empty p.0 then none else some p

  -- `_TAG_LINE.match(line)`, as its two groups
  abbrev pub tag_line : Chars → Option (Chars × Chars)
  tag_line [] = none
  tag_line (c ∷ cs) = if code c == b'[' then named_tag (read_tag cs) else none

  abbrev pub lines_at : Option (List Chars) → List Chars
  lines_at none = []
  lines_at (some lines) = lines

  -- The body of the loop: the fields, and `current`
  abbrev pub read_line :
      Option (Chars × Chars)
      → Chars
      → Dict (List Chars)
      → Option String
      → Dict (List Chars) × Option String
  read_line (some p) line fields current =
      (insert (from_chars p.0) (p.1 ∷ []) fields, some (from_chars p.0))
  read_line none line fields none = (fields, none)
  read_line none line fields (some tag) =
      (insert tag (lines_at (lookup tag fields) ++ line ∷ []) fields, some tag)

  abbrev pub read_lines : List Chars → Dict (List Chars) → Option String → Dict (List Chars)
  read_lines [] fields current = fields
  read_lines (line ∷ lines) fields current =
      let (f, c) = read_line (tag_line line) line fields current in read_lines lines f c

  abbrev pub lstrip : Chars → Chars
  lstrip [] = []
  lstrip (c ∷ cs) = let rest = lstrip cs in if u.is_space (code c) then rest else c ∷ cs

  abbrev pub rstrip : Chars → Chars
  rstrip [] = []
  rstrip (c ∷ cs) =
      let rest = rstrip cs in if u.is_space (code c) && is_empty rest then [] else c ∷ rest

  -- `str.strip`
  abbrev pub strip : Chars → Chars
  strip cs = rstrip (lstrip cs)

  -- `"\n".join(lines)`
  abbrev pub join_lines : List Chars → Chars
  join_lines [] = []
  join_lines (line ∷ []) = line
  join_lines (line ∷ next ∷ lines) = line ++ "\n" ∷ join_lines (next ∷ lines)

  abbrev pub field_text : String × List Chars → String × String
  field_text e = (e.0, from_chars (strip (join_lines e.1)))

  -- `_parse_block`
  unfoldable pub parse_block : Chars → Dict String
  parse_block block = map field_text (read_lines (splitlines block) [] none)

  abbrev pub suc? : Option ℕ → Option ℕ
  suc? none = none
  suc? (some n) = some (suc n)

  -- The length of `\s*\n` at the front, which takes as many characters as it can.
  abbrev pub blank_length : Chars → Option ℕ
  blank_length [] = none
  blank_length (c ∷ cs) =
      let rest = suc? (blank_length cs) in
      if u.is_space (code c)
      then elim rest [ some n ↦ some n | none ↦ (if code c == 10 then some 1 else none) ]
      else none

  -- `re.split(r"\n\s*\n", text)`: `skip` counts the characters of a separator that are left.
  unfoldable pub split_blocks : ℕ → Chars → List Chars
  split_blocks skip [] = [] ∷ []
  split_blocks (suc n) (c ∷ cs) = split_blocks n cs
  split_blocks zero (c ∷ cs) =
      let kept = add_to_first c (split_blocks 0 cs) in
      if code c == 10
      then elim (blank_length cs) [ some n ↦ [] ∷ split_blocks n cs | none ↦ kept ]
      else kept

  -- `[b for b in blocks if b.strip()]`
  abbrev pub with_text : List Chars → List Chars
  with_text [] = []
  with_text (b ∷ bs) = let rest = with_text bs in if is_empty (strip b) then rest else b ∷ rest

  -- `chunk_id.split("-")[0]`
  abbrev pub before_dash : Chars → Chars
  before_dash [] = []
  before_dash (c ∷ cs) = let rest = before_dash cs in if code c == b'-' then [] else c ∷ rest

  -- `record.get(tag) or None`
  abbrev pub or_none : Option String → Option String
  or_none none = none
  or_none (some s) = if truthy s then some s else none

  -- `record.get(tag, default)`
  abbrev pub get_or : Option String → String → String
  get_or none d = d
  get_or (some s) d = s

  abbrev pub chunk_of : String → ℕ → Dict String → String → String → DocumentChunk
  chunk_of document_id index fields chunk_id body = record {
    chunk_id = chunk_id;
    document_id = document_id;
    chunk_index = index;
    text = body;
    metadata = record {
      document_id = document_id;
      title = get_or (lookup "TOPIC" fields) chunk_id;
      program = from_chars (before_dash (chars chunk_id));
      section = or_none (lookup "REGULATORY_REF" fields);
      citation = or_none (lookup "CITATION" fields);
      compliance_level = or_none (lookup "COMPLIANCE_LEVEL" fields);
    };
  }

  abbrev pub then_chunk :
      Result DocumentChunk → Result (List DocumentChunk) → Result (List DocumentChunk)
  then_chunk (err e) rest = err e
  then_chunk (ok c) (err e) = err e
  then_chunk (ok c) (ok cs) = ok (c ∷ cs)

  -- A record without an id or a text is skipped.
  abbrev pub add_chunk :
      String
      → ℕ
      → Dict String
      → Option String
      → Option String
      → Result (List DocumentChunk)
      → Result (List DocumentChunk)
  add_chunk document_id index fields (some chunk_id) (some body) rest =
      if truthy chunk_id && truthy body
      then then_chunk (validate_chunk (chunk_of document_id index fields chunk_id body)) rest
      else rest
  add_chunk document_id index fields _ _ rest = rest

  -- The loop over `enumerate(blocks)`
  abbrev pub read_blocks : String → ℕ → List Chars → Result (List DocumentChunk)
  read_blocks document_id index [] = ok []
  read_blocks document_id index (b ∷ bs) =
      let fields = parse_block b in
      add_chunk document_id index fields (lookup "CHUNK_ID" fields) (lookup "TEXT" fields)
        (read_blocks document_id (suc index) bs)

  -- `parse_corpus_file`, of the file's stem and its text
  unfoldable pub parse_corpus_file : String → String → Result (List DocumentChunk)
  parse_corpus_file stem text =
      read_blocks stem 0 (with_text (split_blocks 0 (without_nul (chars text))))
