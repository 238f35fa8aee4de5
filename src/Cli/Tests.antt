-- ===== src/Cli/Tests.antt =====
-- The retrieval commands on an empty disk, with the embedding model of the offline tests, and the
-- instance of the theorem on them.
use compliance_agent_platfor.Base.{ℕ, String, refl, true, [], none, arith}
use compliance_agent_platfor.Base.Float.{Float, one_float}
use compliance_agent_platfor.Cli.{Disk}
use compliance_agent_platfor.Cli.Retrieval.{Served, ingest-Served}
use compliance_agent_platfor.Config.{Settings, default_settings}
use compliance_agent_platfor.Error.{ok}
use compliance_agent_platfor.Guardrails.Unicode.{ascii}
use compliance_agent_platfor.Rag.Embedding.{
  EmbeddingModel, fake_embeddings, fake_embeddings-Embeds, deterministic_vector,
}
use compliance_agent_platfor.Rag.Ingest.{VectorStore}
use compliance_agent_platfor.Rag.Pgvector.{Postgres, pg_store}
use compliance_agent_platfor.Rag.Samples.{floats, flat, flat-IsFlat, codec, corpus_text, files}

abbrev postgres : Postgres
postgres = record {
  fits_column = λ v. true;
  nearest = λ q rows. rows;
  similarity = λ v q. one_float;
}

abbrev tables : VectorStore
tables = pg_store postgres

abbrev two_dimensions : Settings
two_dimensions = record default_settings { embedding_dimension = 2 }

abbrev empty_disk : Disk floats flat codec tables (λ s. ok s)
empty_disk = record { file = none; tables = record { seen = []; committed = [] } }

abbrev draw : String → ℕ → Float
draw text i = one_float

abbrev model : EmbeddingModel
model = fake_embeddings floats draw 2

ingest-Served_example :
    Served floats flat codec tables
      (λ s. ok s)
      ascii
      model.embed_documents
      (λ dir. files)
      model.embed_query
      two_dimensions
      none
      empty_disk
      "true match"
      5
ingest-Served_example =
    ingest-Served floats flat codec tables (λ s. ok s) ascii model.embed_documents (λ dir. files)
      model.embed_query two_dimensions none flat-IsFlat (λ es n. refl) refl empty_disk "true match"
      (deterministic_vector floats draw "true match" 2) 5 refl ((corpus_text, refl), tt)
      (fake_embeddings-Embeds floats draw 2) refl refl (omega arith)
