-- ===== src/Examples.antt =====
-- Concrete data, and the theorems at it.
pub mod Data
mod QuizExamples
pub mod ScoringExamples
mod GameExamples
mod BoardExamples
mod AuthExamples
pub mod LiveData
mod LiveExamples
mod HostingExamples
mod ArchiveExamples
mod StoreExamples
mod OptionExamples
mod RequestExamples
