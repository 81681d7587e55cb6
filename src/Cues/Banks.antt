-- ===== src/Cues/Banks.antt =====
-- tools/multitracks-cues/src/cues/planner.ts: `resolveDefaultBank` and `validateBus`.
use Prim.Native.Char.{code}
use stagepilot_beta.Common.{
  ℕ, leb, ◌+◌, ◌==◌, String, Bool, true, false, ◌&&◌, ◌||◌, Option, none, some, List, [], ◌∷◌, keep,
  if◌then◌else◌,
}
use stagepilot_beta.Cues.Data.{MidiBus, MidiBank}

abbrev codes_of : String → List ℕ
codes_of String.[] = []
codes_of (String.◌∷◌ c s) = code c ∷ codes_of s

-- What `\s` matches and `trim` removes.
abbrev is_blank : ℕ → Bool
is_blank c =
    c == 32
    || (leb 9 c && leb c 13)
    || c == 160
    || c == 5760
    || (leb 8192 c && leb c 8202)
    || c == 8232
    || c == 8233
    || c == 8239
    || c == 8287
    || c == 12288
    || c == 65279

-- `toLowerCase`, where it can give a letter of ASCII: the capitals and the Kelvin sign.
abbrev lowered : ℕ → ℕ
lowered c = if leb 65 c && leb c 90 then c + 32 else if c == 8490 then 107 else c

-- `name.trim().replace(/\s+/g, " ").toLowerCase()`: a blank is kept, as a space, once a letter
-- comes after it; the flags say that a letter came before, and that a blank waits.
unfoldable pub tidy : Bool → Bool → List ℕ → List ℕ
tidy started waiting [] = []
tidy started waiting (c ∷ cs) =
    let after_blank = tidy started started cs in
    let after_letter = tidy true false cs in
    if is_blank c
    then after_blank
    else if waiting
    then 32 ∷ lowered c ∷ after_letter
    else lowered c ∷ after_letter

abbrev same_letters : List ℕ → List ℕ → Bool
same_letters [] [] = true
same_letters [] (d ∷ ds) = false
same_letters (c ∷ cs) [] = false
same_letters (c ∷ cs) (d ∷ ds) = c == d && same_letters cs ds

unfoldable pub is_default_name : String → Bool
unfolding tidy
is_default_name name =
    let letters = tidy false false (codes_of name) in
    same_letters letters (codes_of "default midi bank") || same_letters letters (codes_of "default")

abbrev pub is_marked : MidiBank → Bool
is_marked bank = elim bank.is_default [ none ↦ false | some flag ↦ flag ]

abbrev pub only : List MidiBank → Option MidiBank
only [] = none
only (bank ∷ []) = some bank
only (_ ∷ _ ∷ _) = none

abbrev pub default_among : List MidiBank → List MidiBank → Option MidiBank
default_among [] named = only named
default_among (bank ∷ rest) named = only (bank ∷ rest)

-- One bank that is marked as the default, or else one that is named so.
unfoldable pub resolve_default_bank : List MidiBank → Option MidiBank
unfolding is_default_name
resolve_default_bank banks =
    default_among (keep is_marked banks) (keep (λ bank. is_default_name bank.name) banks)

abbrev pub single_bus : List MidiBus → Option MidiBus
single_bus [] = none
single_bus (bus ∷ []) = some bus
single_bus (_ ∷ _ ∷ _) = none
