-- ===== src/Server/Receive/Blocks.antt =====
-- The blocks that the receiving thread of a client allocates, and the messages that hold them.
use pr_shooter.Prelude.{List}
