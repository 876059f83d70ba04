-- ===== src/Client/Fetched.antt =====
-- The two ends of a download together.
use irosh.Server.Host.{Host, Stream}
