-- ===== src/Dataset.antt =====
-- internal/dataset: the merge of a dataset's chunks, its resumption, and the lock that guards it.
pub mod Lock
pub mod Recovery
pub mod Merge
