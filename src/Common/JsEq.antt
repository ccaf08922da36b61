-- ===== src/Common/JsEq.antt =====
-- `===` on the values of the language.
use mathlib.Core.Path.{◌≡◌, refl, ap}
use mathlib.Core.Logic.{◌↔◌}
use mathlib.Core.Bool.{Bool, true, false}
use native.Mathlib.Omega.{arith}
use text.Mathlib.TextEquality.{eq_iff}
use fork_metamask_core.Common.Tests.{eqb, eqb_iff}
use fork_metamask_core.Common.Classes.{HasEquality, ◌==◌, string_eq}
use fork_metamask_core.Common.Js.{Value, undefined, null, boolean, number, str, object, array}

abbrev pub bool_eqb : Bool → Bool → Bool
bool_eqb true b = b
bool_eqb false true = false
bool_eqb false false = true

abbrev pub value_eqb : Value → Value → Bool
value_eqb undefined undefined = true
value_eqb null null = true
value_eqb (boolean a) (boolean b) = bool_eqb a b
value_eqb (number a) (number b) = eqb a b
value_eqb (str a) (str b) = a == b
value_eqb (object a) (object b) = eqb a b
value_eqb (array a) (array b) = eqb a b
value_eqb _ _ = false

sound : (v w : Value) → value_eqb v w ≡ true → v ≡ w
sound undefined undefined h = refl
sound null null h = refl
sound (boolean a) (boolean b) h = ground arith
sound (number a) (number b) h = ap number ((eqb_iff a b).0 h)
sound (str a) (str b) h = ap str ((eq_iff a b).0 h)
sound (object a) (object b) h = ap object ((eqb_iff a b).0 h)
sound (array a) (array b) h = ap array ((eqb_iff a b).0 h)
sound _ _ h = absurd (ground arith)

reflexive : (v : Value) → value_eqb v v ≡ true
reflexive undefined = refl
reflexive null = refl
reflexive (boolean true) = refl
reflexive (boolean false) = refl
reflexive (number a) = (eqb_iff a a).1 refl
reflexive (str a) = (eq_iff a a).1 refl
reflexive (object a) = (eqb_iff a a).1 refl
reflexive (array a) = (eqb_iff a a).1 refl

pub value_eqb_iff : (v w : Value) → (value_eqb v w ≡ true) ↔ (v ≡ w)
value_eqb_iff v w = (sound v w, λ e. rw e (reflexive w))

instance abbrev pub value_eq : HasEquality Value
value_eq = record { same = value_eqb; same_iff = value_eqb_iff }
