-- ===== src/Prelude/Environment.antt =====
-- getenv, which every service under services has a copy of. The environment of the process is a
-- parameter: os.Getenv, which is empty where nothing is set.
use iicpc_summer_hackathon.Prelude.Tests.{if◌then◌else◌}
use Prim.Native.String.{String}
use text.Mathlib.Text.{◌==◌ as str_eq}

unfoldable pub getenv : (String → String) → String → String → String
getenv environment key fallback = let v = environment key in if str_eq v "" then fallback else v
