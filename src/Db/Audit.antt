-- ===== src/Db/Audit.antt =====
-- Infrastructure/src/Persistence/PostgresAuditLogRepository.cpp, `record`.
use cppbackend_api.Base.{[], ◌∷◌, ◌++◌, if◌then◌else◌}
use cppbackend_api.Domain.Entities.{AuditLog}
use cppbackend_api.Db.{Db, Outcome, committed}

unfoldable pub record_audit : Outcome → Db → AuditLog → Db
record_audit o db log = if committed o then record db { audit = db.audit ++ log ∷ [] } else db
