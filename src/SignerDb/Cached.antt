-- ===== src/SignerDb/Cached.antt =====
-- Which index GetCachedIndex of src/storage.cpp answers.
use libnunchuk.SignerDb.{SignerDb}
