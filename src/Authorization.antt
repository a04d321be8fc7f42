-- ===== src/Authorization.antt =====
-- Who may pass which Door when: custom_components/homepass/models/authorization.py and
-- services/authorization.py.
pub mod Decision
pub mod Storage
pub mod Snapshot
pub mod Service
