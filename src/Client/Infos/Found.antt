-- ===== src/Client/Infos/Found.antt =====
-- ih_get_shm_infos of icehydra.c, from the first command to the entries in the buffer.
use icehydra.Run.{Run, ok}
use icehydra.Run
use icehydra.Kernel.{Kernel}
