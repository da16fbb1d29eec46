-- ===== src/Domain/Preflight/Readiness.antt =====
-- When `evaluate_preflight` lets a station publish, told without the checks' order or codes.
use true_nas_controller.Common.{
  ℕ, ◌+◌, ◌≤◌, ◌≡◌, refl, ◌↔◌, inl, inr, Bool, true, false, not, ◌&&◌, ◌||◌, Option, none, some,
  List, [], ◌∷◌, arith, Text, any, keep_if, find_first, is_none, ◌==◌, text_eq, Bool-cases,
}
use mathlib.Core.Bool.{false≢true}
use true_nas_controller.Domain.Station.{Station}
use true_nas_controller.Domain.Snapshot.{ProcessInfo, DriveInfo, ProcessSnapshot}
use true_nas_controller.Domain.Preflight.{
  CheckStatus, pass, CheckResult, PreflightPolicy, ProcessRule, is_blocking, can_publish, matches,
  freshness_check, drive_check, found_drive_check, space_check, process_check, violations,
  aggregate_status, evaluate_preflight, check_status_eq,
}

-- The snapshot is neither ahead of the clock nor older than the policy allows.
pub record IsFresh (snapshot : ProcessSnapshot) (policy : PreflightPolicy) (now : ℕ) : Type 0 where
  pub not_ahead : snapshot.captured_at ≤ now
  pub not_stale : now ≤ snapshot.captured_at + policy.max_snapshot_age

-- A known amount that is enough.
abbrev pub Enough : Option ℕ → ℕ → Type 0
Enough none least = ⊥
Enough (some bytes) least = least ≤ bytes

-- The drive is there, present, and is known to have the free space.
abbrev pub Serves : Option DriveInfo → PreflightPolicy → Type 0
Serves none policy = ⊥
Serves (some drive) policy = (drive.present ≡ true) × Enough drive.free_bytes policy.min_free_bytes

-- What `can_publish` accepts.
abbrev pub lets_publish : CheckStatus → Bool
lets_publish status = check_status_eq status pass || check_status_eq status CheckStatus.warning

freshness_iff :
    (snapshot : ProcessSnapshot) (policy : PreflightPolicy) (now : ℕ)
    → (lets_publish (freshness_check snapshot policy now).status ≡ true)
      ↔ IsFresh snapshot policy now
unfolding freshness_check
freshness_iff snapshot policy now = (λ h. ground arith, λ h. ground arith)

space_iff :
    (free : Option ℕ) (policy : PreflightPolicy) (now : ℕ)
    → (lets_publish (space_check free policy now).status ≡ true) ↔ Enough free policy.min_free_bytes
space_iff none policy now = (λ h. cc, λ h. absurd h)
space_iff (some bytes) policy now = (λ h. ground arith, λ h. ground arith)

found_drive_iff :
    (found : Option DriveInfo) (policy : PreflightPolicy) (now : ℕ)
    → (lets_publish (found_drive_check found policy now).status ≡ true) ↔ Serves found policy
found_drive_iff none policy now = (λ h. cc, λ h. absurd h)
found_drive_iff (some drive) policy now = elim (Bool-cases drive.present) [
  | inl e ↦ rw e (
    λ h. (refl, (space_iff drive.free_bytes policy now).0 h),
    λ h. (space_iff drive.free_bytes policy now).1 h.1,
  )
  | inr e ↦ rw e (λ h. cc, λ h. absurd (false≢true h.0))
]

-- The three checks together.
aggregate_three :
    (a b c : CheckResult)
    → lets_publish (aggregate_status (a ∷ b ∷ c ∷ []))
      ≡ (lets_publish a.status && lets_publish b.status && lets_publish c.status)
unfolding aggregate_status
aggregate_three a b c = ground arith

module _ (casefold : Text → Text) (station : Station) (processes : List ProcessInfo) where
  -- The rule forbids one of the running processes.
  abbrev pub runs : ProcessRule → Bool
  runs rule = any processes (λ (p : ProcessInfo). matches casefold rule station p.name)

  -- No rule that demands a closed process with blocking severity matches a running process.
  abbrev pub NoneBlocking : List ProcessRule → Type 0
  NoneBlocking [] = Unit
  NoneBlocking (rule ∷ rules) =
      (rule.required_closed ≡ true → is_blocking rule.severity ≡ true → runs rule ≡ false)
      × NoneBlocking rules

  NoneBlocking-iff :
      (rules : List ProcessRule)
      → (any
            (keep_if runs (keep_if (λ (rule : ProcessRule). rule.required_closed) rules))
            (λ (rule : ProcessRule). is_blocking rule.severity)
          ≡ false)
        ↔ NoneBlocking rules
  NoneBlocking-iff [] = (λ h. tt, λ h. refl)
  NoneBlocking-iff (rule ∷ rules) =
      (λ h. ground (arith, NoneBlocking-iff rules), λ h. ground (arith, NoneBlocking-iff rules))

pub process_status :
    (casefold : Text → Text) (station : Station) (snapshot : ProcessSnapshot)
    (rules : List ProcessRule) (now : ℕ)
    → lets_publish (process_check casefold station snapshot rules now).status
      ≡ not (
          any
            (violations casefold station snapshot rules)
            (λ (rule : ProcessRule). is_blocking rule.severity))
unfolding process_check
process_status casefold station snapshot rules now = ground arith

-- What a station needs in order to publish: it is enabled and not deleted, the snapshot is its own and
-- fresh, the first drive with the required letter serves, and no blocking rule is violated.
pub record IsReady (casefold : Text → Text) (station : Station) (snapshot : ProcessSnapshot)
    (rules : List ProcessRule) (policy : PreflightPolicy) (now : ℕ) : Type 0 where
  pub enabled : station.enabled ≡ true
  pub not_deleted : station.deleted_at ≡ none
  pub own_snapshot : snapshot.station_id ≡ station.station_id
  pub fresh : IsFresh snapshot policy now
  pub drive :
      Serves
        (find_first
          (λ (d : DriveInfo). text_eq (casefold d.letter) (casefold policy.required_drive_letter))
          snapshot.drives)
        policy
  pub quiet : NoneBlocking casefold station snapshot.processes rules

-- The decision as one conjunction, with the three checks shut.
pub preflight_conjunction :
    (casefold : Text → Text) (station : Station) (snapshot : ProcessSnapshot)
    (rules : List ProcessRule) (policy : PreflightPolicy) (now : ℕ)
    → can_publish (evaluate_preflight casefold station (some snapshot) rules policy now) ≡ (
        station.enabled
        && is_none station.deleted_at
        && (snapshot.station_id == station.station_id)
        && lets_publish (freshness_check snapshot policy now).status
        && lets_publish (drive_check casefold snapshot policy now).status
        && lets_publish (process_check casefold station snapshot rules now).status)
unfolding evaluate_preflight can_publish
preflight_conjunction casefold station snapshot rules policy now = ground (
  arith,
  aggregate_three (freshness_check snapshot policy now) (drive_check casefold snapshot policy now)
      (process_check casefold station snapshot rules now),
)

-- `evaluate_preflight` lets a station publish on a snapshot exactly when the station is ready.
pub evaluate_preflight_iff :
    (casefold : Text → Text) (station : Station) (snapshot : ProcessSnapshot)
    (rules : List ProcessRule) (policy : PreflightPolicy) (now : ℕ)
    → (can_publish (evaluate_preflight casefold station (some snapshot) rules policy now) ≡ true)
      ↔ IsReady casefold station snapshot rules policy now
unfolding drive_check
evaluate_preflight_iff casefold station snapshot rules policy now =
    let conj = preflight_conjunction casefold station snapshot rules policy now in
    let quiet_eq = process_status casefold station snapshot rules now in
    let fresh_iff = freshness_iff snapshot policy now in
    let drive_iff =
      found_drive_iff
        (find_first
          (λ (d : DriveInfo). text_eq (casefold d.letter) (casefold policy.required_drive_letter))
          snapshot.drives)
        policy now in
    let quiet_iff = NoneBlocking-iff casefold station snapshot.processes rules in
    (
      λ h. record {
        enabled = ground arith;
        not_deleted = ground arith;
        own_snapshot = ground arith;
        fresh = fresh_iff.0 (ground arith);
        drive = drive_iff.0 (ground arith);
        quiet = quiet_iff.0 (ground arith);
      },
      λ r. ground (
        arith,
        r.enabled,
        r.not_deleted,
        r.own_snapshot,
        fresh_iff.1 r.fresh,
        drive_iff.1 r.drive,
        quiet_iff.1 r.quiet,
      ),
    )
