-- ===== src/Stream/Tests.antt =====
-- The theorems on streams, for a stream that moves one byte at a time.
use cpp_linux_server_frame.Base.{[], ◌∷◌}
use cpp_linux_server_frame.Stream.{read_fix_size}
use cpp_linux_server_frame.Stream.OneByte.{reader}
use cpp_linux_server_frame.Stream.Laws.{ReadsAll, read_fix_size-ReadsAll}

read_fix_size-ReadsAll_example :
    ReadsAll reader (7 ∷ 8 ∷ 9 ∷ []) 2 [] (read_fix_size reader (7 ∷ 8 ∷ 9 ∷ []) 2)
read_fix_size-ReadsAll_example = read_fix_size-ReadsAll reader (7 ∷ 8 ∷ 9 ∷ []) 2
