-- ===== src/Common/Texts.antt =====
-- Texts put together.
use Prim.Native.String as String
use Prim.Native.String.{String}

infixl 65 ◌<>◌
abbrev pub ◌<>◌ : String → String → String
s <> t = String.◌++◌ s t
