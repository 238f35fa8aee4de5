-- ===== src/Rag.antt =====
-- The retrieval subsystem, src/compliance_agent_platform/rag: the corpus parser and the vector store.
pub mod Vectors
pub mod Faiss
pub mod Corpus
pub mod Ingest
pub mod Eval
pub mod Pgvector
pub mod Embedding
pub mod Samples
mod Tests
