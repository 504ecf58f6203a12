-- ===== src/Adaptors/Hana/Effects.antt =====
-- adaptors/hana-adaptor/main.go: what `Execute` leaves in the database.
use mrmfactorytest.Value.{Value}
