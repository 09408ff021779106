-- ===== src/Api/Served/Sound.antt =====
-- What a request does to the tables of the PostgreSQL store.
use focus_flow.Postgres.Sql.{Db}
use focus_flow.Postgres.FocusStore
use focus_flow.Postgres.Sound.{IsSound}
use focus_flow.Repositories.Leads.{Reads, Leads}

abbrev SoundDb : Db → Type 0
SoundDb db = IsSound db.tables
