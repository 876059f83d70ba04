-- ===== src/Server/Upload/Fuel.antt =====
-- The loop over the entries of a recursive upload ends.
use irosh.Server.Host.{Host}
