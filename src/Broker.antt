-- ===== src/Broker.antt =====
-- The broker process: broadcast_cmd and parser_reserve_cmd of src/conf.c, and main.c.
pub mod Cast
pub mod Reserve
pub mod Loop
