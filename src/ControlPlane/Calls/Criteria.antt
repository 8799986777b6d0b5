-- ===== src/ControlPlane/Calls/Criteria.antt =====
-- Every source in the database has pass criteria that the engine knows, after any calls.
use sheeld.Prelude.{◌≡◌, nat_eq}
use sheeld.ControlPlane.{Database}

-- The sources' table is as it was.
abbrev SameSources : Database → Database → Type 0
SameSources db db' = db'.sources ≡ db.sources
