-- ===== src/Core/Storage.antt =====
-- `atomic_write` of src/core/storage.rs, by what it leaves on the disk and what it answers.

-- The file is replaced, left alone, or replaced with an error after it.
pub data Write : Type 0 where
  done lost unconfirmed : Write
