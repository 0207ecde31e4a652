-- ===== src/User/Clients.antt =====
-- user/heap.c from its start: `init_ptrs_array`, and any calls of `malloc` and `free` after it.
use armv7_os.Prelude.{List, []}
use armv7_os.Heap.{Heap}
use armv7_os.Heap.Tiles.{Tile}
use armv7_os.Heap.Tiles.Begin.{stack_tiles}
use armv7_os.Heap.Tiles.Session.{Session}
use armv7_os.User.Blocks.{blocks_32}

-- 64 reserved blocks of 32 bytes.
abbrev pub ptrs_tiles : List Tile
ptrs_tiles = stack_tiles (blocks_32 64 [])
