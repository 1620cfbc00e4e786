-- ===== src/Client/Infos/Named.antt =====
-- icehydra.c: a process asks for the shared memories and attaches one of them by its name.
use icehydra.Prelude.{ℕ, none, Option, List, ℤ}
use icehydra.Run.{Run, ok, ◌>>=◌}
use icehydra.Run
use icehydra.Kernel.{Kernel}
use icehydra.Storage.{Storage}
use icehydra.Client.Infos.{ih_get_shm_infos, ih_get_shm_by_name}

-- Both calls, with the socket's and the memories' side of the system.
pub ask_and_attach :
    (k : Kernel) (m : Storage)
    → ℕ
    → ℤ
    → List ℕ
    → ℕ
    → List ℕ
    → k.World
    → m.World
    → Run (ℤ × ℤ × Option ℕ × m.World)
ask_and_attach k m fuel fd buffer buffersize name w v = do
  (ret, buffer', fd', w') ← ih_get_shm_infos k fuel fd buffer buffersize w
  (size, ptr, v') ← ih_get_shm_by_name m buffer' name none v
  ok (ret, size, ptr, v')
