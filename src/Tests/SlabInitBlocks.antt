-- ===== src/Tests/SlabInitBlocks.antt =====
-- Pages of 200 bytes behind 0x10018, cut into blocks of 32 bytes, four at most.
use oxidalloc.Prelude.{arith}
use oxidalloc.Slab.ThreadCache.{Headers}
use oxidalloc.Slab.InitBlocks.{MetaData, init_blocks}
use oxidalloc.Slab.InitBlocks.Pages.{Cuts, init_blocks-Cuts}

abbrev headers : Headers
headers p = record { next = 0; class = 0; magic = 0; life_time = 0 }

abbrev pages : MetaData
pages = record { start = 0x10000; end = 0x100E0; next = 0x10018 }

init_blocks-Cuts_example : Cuts pages 32 4 headers (init_blocks 7 1 pages 32 4 9 headers)
init_blocks-Cuts_example =
    init_blocks-Cuts 7 1 pages 32 4 9 headers (omega arith) (omega arith) (omega arith)
      (omega arith)
