-- ===== src/Common/Js.antt =====
-- The values of the language, as far as the controllers look at them.
use Prim.Native.Nat.{ℕ}
use Prim.Native.String.{String}
use mathlib.Core.Bool.{Bool, true, false, not}
use fork_metamask_core.Common.Tests.{eqb, if◌then◌else◌}
use fork_metamask_core.Common.Classes.{◌==◌, string_eq}

-- `object` and `array` carry a token: the code only passes their content on.
pub data Value : Type 0 where
  undefined null : Value
  boolean : Bool → Value
  number : ℕ → Value
  str : String → Value
  object array : ℕ → Value

-- `Boolean(v)`.
abbrev pub truthy : Value → Bool
truthy undefined = false
truthy null = false
truthy (boolean b) = b
truthy (number n) = not (eqb n 0)
truthy (str s) = not (s == "")
truthy (object t) = true
truthy (array t) = true

-- `typeof v === 'string'`.
abbrev pub is_string : Value → Bool
is_string (str s) = true
is_string _ = false

-- `typeof v === 'object' && !Array.isArray(v)`, which holds of `null` too.
abbrev pub is_plain : Value → Bool
is_plain (object t) = true
is_plain null = true
is_plain _ = false

-- The text of a value that is known to be a string.
abbrev pub string_of : Value → String
string_of (str s) = s
string_of _ = ""

-- `v || null`.
abbrev pub or_null : Value → Value
or_null v = if truthy v then v else null
