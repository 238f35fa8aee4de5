-- ===== src/Rag/Tests.antt =====
-- The instances of the theorems on retrieval.
use compliance_agent_platfor.Base.{◌≡◌, refl, length, arith}
use compliance_agent_platfor.Base.Dict.{insert}
use compliance_agent_platfor.Base.Text.{chars}
use compliance_agent_platfor.Error.{ok}
use compliance_agent_platfor.Guardrails.Unicode.{ascii}
use compliance_agent_platfor.Rag.Corpus.{parse_corpus_file}
use compliance_agent_platfor.Rag.Corpus.Blocks.{Parses, parse_corpus_file-Parses, blocks_of}
use compliance_agent_platfor.Rag.Corpus.RoundTrip.{record_chunks, parse_corpus_file-render}
use compliance_agent_platfor.Rag.Faiss.File.{RoundTrip, load-RoundTrip}
use compliance_agent_platfor.Rag.Faiss.Search.{Answers, search-Answers}
use compliance_agent_platfor.Rag.Samples.{
  floats, flat, flat-IsFlat, ascii-IsSpaced, guidance-IsRecord, records, corpus_text, vector,
  one_chunk, one_chunk-IsStore, codec,
}

parse_corpus_file-render_example :
    parse_corpus_file ascii "ofac" corpus_text ≡ ok (record_chunks ascii "ofac" 0 records)
parse_corpus_file-render_example = parse_corpus_file-render ascii ascii-IsSpaced "ofac" records (
  guidance-IsRecord (chars "OFAC-014") refl refl refl,
  (guidance-IsRecord (chars "OFAC-015") refl refl refl, tt),
)

parse_corpus_file-Parses_example :
    Parses ascii "ofac" 0
      (length (blocks_of ascii corpus_text))
      (parse_corpus_file ascii "ofac" corpus_text)
parse_corpus_file-Parses_example = parse_corpus_file-Parses ascii "ofac" corpus_text

search-Answers_example : Answers floats flat flat-IsFlat one_chunk vector 5
search-Answers_example =
    search-Answers floats flat flat-IsFlat one_chunk vector 5 one_chunk-IsStore refl (omega arith)

load-RoundTrip_example : RoundTrip floats flat flat-IsFlat codec one_chunk
unfolding insert
load-RoundTrip_example =
    load-RoundTrip floats flat flat-IsFlat codec (λ es n. refl) one_chunk one_chunk-IsStore refl
      (refl, tt)
