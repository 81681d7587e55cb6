-- ===== src/Registry/Slots/Invariant.antt =====
-- The invariant of the registry's slots, and what an action makes of it.
use stagepilot_beta.Common.{
  ℕ, ◌+◌, Option, none, some, lookup, insert, lookup-insert_self, ◌≡◌, ◌≤◌, refl, arith, inl, inr,
  Option-cases,
}
use stagepilot_beta.Registry.Data.{World, Installation, RegistryStats}
use stagepilot_beta.Registry.Action.{save}
use stagepilot_beta.Registry.Limits.{count_live, stats, read_stats}
use stagepilot_beta.Registry.Rules.Basic.{Keeps}
use stagepilot_beta.Registry.Rules.Leads.{Ends, Leads}
use stagepilot_beta.Registry.Slots.Count.{count_live-insert, IsKeyed, insert-IsKeyed}
use stagepilot_beta.Registry.Slots.Steady.{active, IsSteady}

module _ (limit : ℕ) where
  -- The counter is stored, it covers the installations that are not revoked and `spare` more,
  -- and these are within the limit.
  pub record IsSound (spare : ℕ) (w : World) : Type 0 where
    pub counter : ℕ
    pub stored : active w.stats ≡ some counter
    pub covered : count_live w.installations + spare ≤ counter
    pub bounded : count_live w.installations ≤ limit
    pub keyed : IsKeyed w.installations

  -- A handler works on `i`, and what is stored of it is revoked if it is.
  pub record Holds (spare : ℕ) (i : Installation) (w : World) : Type 0 where
    pub sound : IsSound spare w
    pub old : Installation
    pub known : lookup i.id w.installations ≡ some old
    pub same : old.revoked ≡ i.revoked

  pub weaken : {spare : ℕ} {w : World} → IsSound spare w → IsSound 0 w
  weaken s = record {
    counter = s.counter;
    stored = s.stored;
    covered = omega (arith, s.covered);
    bounded = s.bounded;
    keyed = s.keyed;
  }

  -- What a request to the provider leaves alone carries the invariant over.
  pub steady-IsSound :
      {spare : ℕ} {w w' : World}
      → (s : IsSound spare w) → IsSteady w.installations s.counter w'
      → IsSound spare w'
  steady-IsSound s t = record {
    counter = s.counter;
    stored = t.counted;
    covered = rw t.same s.covered;
    bounded = rw t.same s.bounded;
    keyed = rw t.same s.keyed;
  }

  pub steady-Holds :
      {spare : ℕ} {i : Installation} {w w' : World}
      → (h : Holds spare i w) → IsSteady w.installations h.sound.counter w'
      → Holds spare i w'
  steady-Holds h t = record {
    sound = steady-IsSound h.sound t;
    old = h.old;
    known = rw t.same h.known;
    same = h.same;
  }

  -- A write of an installation that is revoked as the stored one is.
  pub save-Holds :
      {spare : ℕ} {i : Installation} (j : Installation)
      → j.id ≡ i.id
      → j.revoked ≡ i.revoked
      → Leads (IsSound 0) (Holds spare i) (save j) (λ _. Holds spare j)
  unfolding save
  save-Holds {spare} {i} j same_id same_revoked = record {
    at = λ w h.
        let counts = count_live-insert j.id j w.installations in
        let known : lookup j.id w.installations ≡ some h.old = rw same_id h.known in
        let total : count_live (insert j.id j w.installations) ≡ count_live w.installations =
          ground (arith, counts, known, h.same, same_revoked) in
        record {
          sound = record {
            counter = h.sound.counter;
            stored = h.sound.stored;
            covered = rw total h.sound.covered;
            bounded = rw total h.sound.bounded;
            keyed = insert-IsKeyed j w.installations h.sound.keyed;
          };
          old = j;
          known = lookup-insert_self j.id j w.installations;
          same = refl;
        };
  }

  -- The statistics that are read are those stored afterwards.
  abbrev pub IsRead : (World → Type 0) → RegistryStats → World → Type 0
  IsRead P s w = P w × (active w.stats ≡ some s.active_installations)

  module _ (P : World → Type 0) where
    read_stats-Ends :
        (o : Option RegistryStats) (w : World)
        → w.stats ≡ o
        → P (read_stats o w.installations w).1
        → Ends
            (IsSound 0)
            (IsRead P)
            (read_stats o w.installations w).0
            (read_stats o w.installations w).1
    unfolding read_stats
    read_stats-Ends none w e p = (p, refl)
    read_stats-Ends (some s) w e p = elim (Option-cases s.diagnostics_bytes_used) [
      | inl missing ↦ rw (missing, read_stats) (rw (missing, read_stats) at p, refl)
      | inr (n, given) ↦ rw (given, read_stats) (rw (given, read_stats) at p, rw e refl)
    ]

    pub stats-Leads : Keeps P stats → Leads (IsSound 0) P stats (IsRead P)
    unfolding stats
    stats-Leads k = record { at = λ w h. read_stats-Ends w.stats w refl (k.at w h) }
