-- ===== src/Registry/Device/Clean.antt =====
-- control-plane/src/index.ts: what `sanitizeDeviceName` lets through.
use Prim.Native.Char.{Char, code}
use stagepilot_beta.Common.{
  ℕ, ◌-◌, ◌≤◌, String, Bool, true, false, not, ◌&&◌, Option, none, some, leb, ◌≡◌, refl, arith,
  Bool-cases, inl, inr,
}
use stagepilot_beta.Registry.Names.{units, utf16_length, is_space}
use stagepilot_beta.Registry.Device.{
  is_control, drop_controls, trim_start, cons_unless_blank, trim_end, take_units,
  sanitize_device_name,
}

-- No character of the text is a control character.
pub has_no_controls : String → Bool
has_no_controls String.[] = true
has_no_controls (String.◌∷◌ c s) = not (is_control (code c)) && has_no_controls s

drop_controls_lem : (s : String) → has_no_controls (drop_controls s) ≡ true
unfolding has_no_controls drop_controls
drop_controls_lem String.[] = refl
drop_controls_lem (String.◌∷◌ c s) = ground (arith, drop_controls_lem s)

trim_start_lem : (s : String) → has_no_controls s ≡ true → has_no_controls (trim_start s) ≡ true
unfolding has_no_controls trim_start
trim_start_lem String.[] h = refl
trim_start_lem (String.◌∷◌ c s) h = ground (arith, h, trim_start_lem s)

cons_lem :
    (c : Char) (s : String)
    → is_control (code c) ≡ false
    → has_no_controls s ≡ true
    → has_no_controls (cons_unless_blank c s) ≡ true
unfolding has_no_controls
cons_lem c String.[] h e = elim (Bool-cases (is_space (code c))) [
  | inl blank ↦ rw blank refl
  | inr solid ↦ rw (solid, h) refl
]
cons_lem c (String.◌∷◌ d s) h e = ground (arith, h, e)

trim_end_lem : (s : String) → has_no_controls s ≡ true → has_no_controls (trim_end s) ≡ true
unfolding has_no_controls trim_end
trim_end_lem String.[] h = refl
trim_end_lem (String.◌∷◌ c s) h =
    cons_lem c (trim_end s) (ground (arith, h)) (trim_end_lem s (ground (arith, h)))

take_units_lem :
    (n : ℕ) (s : String)
    → has_no_controls s ≡ true
    → (has_no_controls (take_units n s) ≡ true) × (utf16_length (take_units n s) ≤ n)
unfolding has_no_controls take_units utf16_length
take_units_lem n String.[] h = (refl, omega arith)
take_units_lem n (String.◌∷◌ c s) h = elim (Bool-cases (leb (units (code c)) n)) [
  | inl fits ↦ rw fits (ground (arith, h, fits, take_units_lem (n - units (code c)) s))
  | inr cut ↦ rw cut (refl, omega arith)
]

-- A device name that is let through has no control character and at most 253 UTF-16 units,
-- whatever was reported.
pub sanitize_device_name-clean :
    (raw : Option String) (name : String)
    → sanitize_device_name raw ≡ some name
    → (has_no_controls name ≡ true) × (utf16_length name ≤ 253)
unfolding sanitize_device_name
sanitize_device_name-clean none name e = ground (arith, e)
sanitize_device_name-clean (some raw) name e =
    let cleaned = trim_end (trim_start (drop_controls raw)) in
    let kept : has_no_controls cleaned ≡ true =
      trim_end_lem _ (trim_start_lem _ (drop_controls_lem raw)) in
    ground (arith, e, take_units_lem 253 cleaned kept)
