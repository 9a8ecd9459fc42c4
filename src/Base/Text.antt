-- ===== src/Base/Text.antt =====
-- Text literals of the source as byte strings.
use Prim.Native.Char.{code}
use Prim.Native.String.{String}
use mathlib.Core.List.{[], ◌∷◌}
use bpfima.Base.Buffers.{Bytes}

-- The bytes of an ASCII literal, without its terminator.
abbrev pub bytes : String → Bytes
bytes String.[] = []
bytes (String.◌∷◌ c s) = code c ∷ bytes s
