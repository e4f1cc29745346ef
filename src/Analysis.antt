-- ===== src/Analysis.antt =====
-- internal/analysis: the judgment of a vision model, its decoding and its validation.
pub mod Draft
pub mod Provider
pub mod Analyzer
