-- ===== src/Registry/Device.antt =====
-- control-plane/src/index.ts: `sanitizeDeviceName` and `applyDeviceName`.
pub mod Clean
use Prim.Native.Char.{Char, code}
use stagepilot_beta.Common.{
  ℕ, ◌-◌, String, Bool, true, false, not, ◌&&◌, ◌||◌, Option, none, some, leb, ◌==◌, ◌≡◌, arith,
  str_eq, is_some, if◌then◌else◌,
}
use stagepilot_beta.Registry.Names.{is_space, units}
use stagepilot_beta.Registry.Data.{Installation}

-- `/[\x00-\x1f\x7f]/`
abbrev pub is_control : ℕ → Bool
is_control c = leb c 0x1f || c == 0x7f

unfoldable pub drop_controls : String → String
drop_controls String.[] = String.[]
drop_controls (String.◌∷◌ c s) =
    if is_control (code c) then drop_controls s else String.◌∷◌ c (drop_controls s)

unfoldable pub trim_start : String → String
trim_start String.[] = String.[]
trim_start (String.◌∷◌ c s) = if is_space (code c) then trim_start s else String.◌∷◌ c s

abbrev pub cons_unless_blank : Char → String → String
cons_unless_blank c String.[] = if is_space (code c) then String.[] else String.◌∷◌ c String.[]
cons_unless_blank c (String.◌∷◌ d s) = String.◌∷◌ c (String.◌∷◌ d s)

unfoldable pub trim_end : String → String
trim_end String.[] = String.[]
trim_end (String.◌∷◌ c s) = cons_unless_blank c (trim_end s)

-- `slice(0, n)`. A pair of units that the cut would split is left out whole.
unfoldable pub take_units : ℕ → String → String
take_units n String.[] = String.[]
take_units n (String.◌∷◌ c s) =
    if leb (units (code c)) n then String.◌∷◌ c (take_units (n - units (code c)) s) else String.[]

abbrev pub device_name_limit : ℕ
device_name_limit = 253

-- `none` stands for a value that is no text, and for no device name.
unfoldable pub sanitize_device_name : Option String → Option String
unfolding drop_controls trim_start trim_end take_units
sanitize_device_name none = none
sanitize_device_name (some raw) =
    let cleaned = trim_end (trim_start (drop_controls raw)) in
    if str_eq cleaned "" then none else some (take_units device_name_limit cleaned)

abbrev pub same_name : String → Option String → Bool
same_name name none = false
same_name name (some old) = str_eq name old

unfoldable pub name_device : Installation → String → Installation
name_device i name =
    let named = record i { device_name = some name } in
    if not (is_some i.device_name) && str_eq i.label ""
    then record named { label = name }
    else named

-- The installation, and whether it was changed.
unfoldable pub apply_device_name : Installation → Option String → Installation × Bool
unfolding sanitize_device_name name_device
apply_device_name i raw = elim (sanitize_device_name raw) [
  | none ↦ (i, false)
  | some name ↦ if same_name name i.device_name then (i, false) else (name_device i name, true)
]

-- Naming a device leaves the installation's identity and its access alone.
pub apply_device_name-id :
    (i : Installation) (raw : Option String) → (apply_device_name i raw).0.id ≡ i.id
unfolding apply_device_name
apply_device_name-id i raw = ground arith

pub apply_device_name-revoked :
    (i : Installation) (raw : Option String) → (apply_device_name i raw).0.revoked ≡ i.revoked
unfolding apply_device_name
apply_device_name-revoked i raw = ground arith
