-- ===== src/Database.antt =====
-- config/database.go: what InitDB connects to and does to the tables before the schema is migrated.
-- gorm and PostgreSQL are parameters; what fails there ends the process.
pub mod Newest
use certhub_server.Common.{ℕ, String, Bool, not, ◌&&◌, List, ◌==◌, ltb, any, keep, count}
use certhub_server.Common.Text.{◌+++◌}
use certhub_server.Config.{DatabaseConfig}
use certhub_server.Models.{Certificate}
use certhub_server.Store.{Statement, ok}

-- The text that gorm.Open gets.
unfoldable pub data_source_name : DatabaseConfig → String
data_source_name d =
    "host=" +++ d.host +++ " user=" +++ d.user +++ " password=" +++ d.password +++ " dbname="
    +++ d.db_name +++ " port=" +++ d.port +++ " sslmode=" +++ d.ssl_mode
    +++ " TimeZone=Asia/Shanghai"

-- a.domain_id = b.domain_id AND a.id < b.id
abbrev pub is_older_than : Certificate → Certificate → Bool
is_older_than a b = a.domain_id == b.domain_id && ltb a.id b.id

-- DELETE FROM certificates a USING certificates b, all rows as they were before.
unfoldable pub remove_duplicate_certificates : Statement ℕ
remove_duplicate_certificates db =
    let duplicate = λ (a : Certificate). any (is_older_than a) db.certificates in
    (
      ok (count duplicate db.certificates),
      record db { certificates = keep (λ a. not (duplicate a)) db.certificates },
    )
