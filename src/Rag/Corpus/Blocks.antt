-- ===== src/Rag/Corpus/Blocks.antt =====
-- What the parser makes of any text: chunks that their model accepts, in the order of the blocks.
use compliance_agent_platfor.Base.{
  ℕ, suc, ◌+◌, ◌≤◌, ◌<◌, String, ◌≡◌, refl, true, ◌&&◌, List, [], ◌∷◌, Option, none, some, All, inl,
  inr, Bool-cases, length, arith, truthy,
}
use compliance_agent_platfor.Base.Dict.{Dict, lookup}
use compliance_agent_platfor.Base.Text.{chars, from_chars}
use compliance_agent_platfor.Error.{Result, ok}
use compliance_agent_platfor.Guardrails.Unicode.{Unicode}
use compliance_agent_platfor.Rag.Corpus.{
  Chars, read_blocks, add_chunk, chunk_of, parse_block, parse_corpus_file, with_text, split_blocks,
  without_nul, before_dash,
}
use compliance_agent_platfor.Rag.Faiss.{validate_chunk}
use compliance_agent_platfor.Schemas.Retrieval.{DocumentChunk}

module _ (u : Unicode) where
  -- A chunk that its model accepts, of this document and of the block of its index.
  pub record IsChunk (document_id : String) (count : ℕ) (c : DocumentChunk) : Type 0 where
    pub named : truthy c.chunk_id ≡ true
    pub valid : validate_chunk c ≡ ok c
    pub of_document : c.document_id ≡ document_id
    pub same_document : c.metadata.document_id ≡ document_id
    pub program_is : c.metadata.program ≡ from_chars (before_dash u (chars c.chunk_id))
    pub in_bounds : c.chunk_index < count

  -- The indices go up, from `low` at least.
  abbrev pub Ascending : ℕ → List DocumentChunk → Type 0
  Ascending low [] = Unit
  Ascending low (c ∷ cs) = (low ≤ c.chunk_index) × Ascending (suc c.chunk_index) cs

  -- The parser returned such chunks.
  pub record Parses (document_id : String) (low count : ℕ) (r : Result (List DocumentChunk))
      : Type 0 where
    pub chunks : List DocumentChunk
    pub returned : r ≡ ok chunks
    pub ascending : Ascending low chunks
    pub are_chunks : All (IsChunk document_id count) chunks

  Ascending-weaken :
      (low more : ℕ) (cs : List DocumentChunk) → low ≤ more → Ascending more cs → Ascending low cs
  Ascending-weaken low more [] l a = tt
  Ascending-weaken low more (c ∷ cs) l a = (omega (arith, l, a.0), a.1)

  Parses-weaken :
      (d : String) (low count : ℕ) (r : Result (List DocumentChunk))
      → Parses d (suc low) count r
      → Parses d low count r
  Parses-weaken d low count r p = record {
    chunks = p.chunks;
    returned = p.returned;
    ascending = Ascending-weaken low (suc low) p.chunks (omega arith) p.ascending;
    are_chunks = p.are_chunks;
  }

  add_chunk-Parses :
      (d : String) (index count : ℕ) (fields : Dict String) (id body : Option String)
      (rest : Result (List DocumentChunk))
      → index < count
      → Parses d (suc index) count rest
      → Parses d index count (add_chunk u d index fields id body rest)
  add_chunk-Parses d index count fields none body rest l p = Parses-weaken d index count rest p
  add_chunk-Parses d index count fields (some id) none rest l p = Parses-weaken d index count rest p
  add_chunk-Parses d index count fields (some id) (some body) rest l p =
      elim (Bool-cases (truthy id && truthy body)) [
        | inl e ↦
            let c = chunk_of u d index fields id body in
            let valid : validate_chunk c ≡ ok c = ground (arith, e) in
            record {
              chunks = c ∷ p.chunks;
              returned = rw (e, valid, p.returned) refl;
              ascending = (omega arith, p.ascending);
              are_chunks = (
                record {
                  named = ground (arith, e);
                  valid = valid;
                  of_document = refl;
                  same_document = refl;
                  program_is = refl;
                  in_bounds = l;
                },
                p.are_chunks,
              );
            }
        | inr e ↦ rw e (Parses-weaken d index count rest p)
      ]

  read_blocks-Parses :
      (d : String) (index count : ℕ) (blocks : List Chars)
      → index + length blocks ≤ count
      → Parses d index count (read_blocks u d index blocks)
  read_blocks-Parses d index count [] l = record {
    chunks = [];
    returned = refl;
    ascending = tt;
    are_chunks = tt;
  }
  read_blocks-Parses d index count (b ∷ bs) l =
      let fields = parse_block u b in
      add_chunk-Parses d index count fields (lookup "CHUNK_ID" fields) (lookup "TEXT" fields)
        (read_blocks u d (suc index) bs) (omega (arith, l))
        (read_blocks-Parses d (suc index) count bs (omega (arith, l)))

  -- The blocks of a text
  abbrev pub blocks_of : String → List Chars
  blocks_of text = with_text u (split_blocks u 0 (without_nul (chars text)))

  -- The parser raises on no text: a malformed record is skipped, and every chunk that it gives has an
  -- id and a text, is of the file's document, and has the index of its block, in ascending order.
  pub parse_corpus_file-Parses :
      (stem text : String) → Parses stem 0 (length (blocks_of text)) (parse_corpus_file u stem text)
  unfolding parse_corpus_file
  parse_corpus_file-Parses stem text =
      read_blocks-Parses stem 0 (length (blocks_of text)) (blocks_of text) (omega arith)
