-- ===== src/Cues/Verifier.antt =====
-- tools/multitracks-cues/src/cues/verifier.ts: the counts of a plan that is made to verify.
use Prim.Native.Char.{code}
use stagepilot_beta.Common.{
  ℕ, ◌+◌, leb, ◌==◌, String, Bool, true, false, ◌&&◌, ◌||◌, Option, List, [], ◌∷◌, any,
  if◌then◌else◌,
}
use stagepilot_beta.Common.Exec.{return, ◌>>=◌}
use stagepilot_beta.Cues.Data.{
  PlanOperation, skip_non_song, skip_conflict, skip_ambiguous, CuePlanItem, CuePlan,
}
use stagepilot_beta.Cues.Applier.{is_present, is_create}
use stagepilot_beta.Cues.Plan.{build_cue_plan}
use stagepilot_beta.Cues.Service.{Gateway, Task}

abbrev letters_of : String → List ℕ
letters_of String.[] = []
letters_of (String.◌∷◌ c s) = code c ∷ letters_of s

abbrev small : ℕ → ℕ
small c = if leb 65 c && leb c 90 then c + 32 else c

abbrev starts_with : List ℕ → List ℕ → Bool
starts_with [] cs = true
starts_with (p ∷ ps) [] = false
starts_with (p ∷ ps) (c ∷ cs) = small c == p && starts_with ps cs

abbrev occurs : List ℕ → List ℕ → Bool
occurs word [] = starts_with word []
occurs word (c ∷ cs) = starts_with word (c ∷ cs) || occurs word cs

-- `/multiple/i.test(reason)`
unfoldable pub says_multiple : String → Bool
says_multiple reason = occurs (letters_of "multiple") (letters_of reason)

abbrev pub is_non_song : PlanOperation → Bool
is_non_song skip_non_song = true
is_non_song _ = false

abbrev pub is_refusal : PlanOperation → Bool
is_refusal skip_conflict = true
is_refusal skip_ambiguous = true
is_refusal _ = false

pub record VerificationSummary : Type 0 where
  pub verified : ℕ
  pub missing : ℕ
  pub conflicting : ℕ
  pub duplicated : ℕ
  pub skipped : ℕ

abbrev pub nothing : VerificationSummary
nothing = record { verified = 0; missing = 0; conflicting = 0; duplicated = 0; skipped = 0 }

unfoldable pub count_item : CuePlanItem → VerificationSummary → VerificationSummary
count_item item s =
    if any is_non_song item.operations
    then record s { skipped = s.skipped + 1 }
    else if any is_present item.operations
    then record s {
      verified = s.verified + 1;
      duplicated = if says_multiple item.reason then s.duplicated + 1 else s.duplicated;
    }
    else if any is_refusal item.operations
    then record s { conflicting = s.conflicting + 1 }
    else if any is_create item.operations
    then record s { missing = s.missing + 1 }
    else s

unfoldable pub summarize : List CuePlanItem → VerificationSummary → VerificationSummary
unfolding count_item
summarize [] s = s
summarize (item ∷ items) s = summarize items (count_item item s)

unfoldable pub is_success : VerificationSummary → Bool
is_success s = s.missing == 0 && s.conflicting == 0 && s.duplicated == 0

unfoldable pub verify_cue_plan :
    Gateway
    → Option String
    → String
    → String
    → Option (List ℕ)
    → Task (CuePlan × VerificationSummary)
verify_cue_plan g selected_bus setlist_id profile positions = do
  plan ← build_cue_plan g selected_bus setlist_id profile positions
  return (plan, summarize plan.items nothing)
