-- ===== src/Importexport.antt =====
-- The exchange of inventories as files, in server/internal/importexport.
pub mod Escape
pub mod Tests
