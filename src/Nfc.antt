-- ===== src/Nfc.antt =====
-- The NFC access: nfc/sessions.py, nfc/models.py and nfc/repository.py.
pub mod Sessions
pub mod Records
pub mod Repository
