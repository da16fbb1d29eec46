-- ===== src/Domain/Preflight/Roles.antt =====
-- The rules that do not concern a station do not change its preflight (domain/preflight.py).
use true_nas_controller.Common.{
  ℕ, ◌≡◌, refl, sym, ap, ◌∙◌, Bool, false, not, ◌&&◌, some, List, [], ◌∷◌, arith, Text, any,
  any-order_by, keep_if, order_by, is_none, ◌==◌, Bool-cases, inl, inr,
}
use true_nas_controller.Domain.Station.{Station}
use true_nas_controller.Domain.Snapshot.{ProcessInfo, ProcessSnapshot}
use true_nas_controller.Domain.Preflight.{
  ProcessRule, PreflightPolicy, applies_to_role, is_blocking, matches, violations, can_publish,
  evaluate_preflight, freshness_check, drive_check,
}
use true_nas_controller.Domain.Preflight.Readiness.{
  runs, lets_publish, process_status, preflight_conjunction,
}

any-keep_if :
    {A : Type 0} (p q : A → Bool) (xs : List A) → any (keep_if p xs) q ≡ any xs (λ x. p x && q x)
any-keep_if p q [] = refl
any-keep_if p q (x ∷ xs) = ground (arith, any-keep_if p q xs)

any_same : {A : Type 0} (p q : A → Bool) (xs : List A) → ((x : A) → p x ≡ q x) → any xs p ≡ any xs q
any_same p q [] h = refl
any_same p q (x ∷ xs) h = let e = h x in let rest = any_same p q xs h in rw (e, rest) refl

absorbed : (c q r b : Bool) → c ≡ false → r ≡ false → (c && (q && (r && b))) ≡ (q && (r && b))
absorbed c q r b h k = ground arith

module _ (casefold : Text → Text) (station : Station) (snapshot : ProcessSnapshot)
    (le : ProcessRule → ProcessRule → Bool) where
  -- The rules for the role of the station.
  abbrev concerns : ProcessRule → Bool
  concerns rule = rule.enabled && applies_to_role rule.role station.role

  -- A blocking rule that a running process violates.
  abbrev blocks : ProcessRule → Bool
  blocks rule =
      rule.required_closed
      && (runs casefold station snapshot.processes rule && is_blocking rule.severity)

  no_match :
      (rule : ProcessRule) (processes : List ProcessInfo)
      → concerns rule ≡ false
      → runs casefold station processes rule ≡ false
  unfolding matches
  no_match rule [] h = refl
  no_match rule (p ∷ processes) h = let rest = no_match rule processes h in ground arith

  only_concerned_block : (rule : ProcessRule) → (concerns rule && blocks rule) ≡ blocks rule
  only_concerned_block rule = elim (Bool-cases (concerns rule)) [
    | inl e ↦ rw e refl
    | inr e ↦
        absorbed (concerns rule) rule.required_closed
          (runs casefold station snapshot.processes rule) (is_blocking rule.severity) e
          (no_match rule snapshot.processes e)
  ]

  violated :
      (rules : List ProcessRule)
      → any
          (violations casefold station snapshot rules)
          (λ (r : ProcessRule). is_blocking r.severity)
        ≡ any rules blocks
  violated rules =
      any-keep_if (runs casefold station snapshot.processes)
        (λ (r : ProcessRule). is_blocking r.severity) _
      ∙ any-keep_if (λ (r : ProcessRule). r.required_closed)
          (λ r. runs casefold station snapshot.processes r && is_blocking r.severity) rules

  -- The rules of the role, in any order, violate as the whole policy does.
  pub role_rules_suffice :
      (rules : List ProcessRule) (policy : PreflightPolicy) (now : ℕ)
      → can_publish (
          evaluate_preflight casefold station
            (some snapshot)
            (order_by le (keep_if concerns rules))
            policy
            now)
        ≡ can_publish (evaluate_preflight casefold station (some snapshot) rules policy now)
  role_rules_suffice rules policy now =
      let chosen = order_by le (keep_if concerns rules) in
      let same : any (violations casefold station snapshot chosen)
            (λ (r : ProcessRule). is_blocking r.severity)
          ≡ any (violations casefold station snapshot rules)
              (λ (r : ProcessRule). is_blocking r.severity) =
        violated chosen
        ∙ any-order_by le blocks (keep_if concerns rules)
        ∙ any-keep_if concerns blocks rules
        ∙ any_same (λ r. concerns r && blocks r) blocks rules only_concerned_block
        ∙ sym (violated rules) in
      let checks =
        process_status casefold station snapshot chosen now
        ∙ ap not same
        ∙ sym (process_status casefold station snapshot rules now) in
      preflight_conjunction casefold station snapshot chosen policy now
      ∙ ap
          (λ b.
            station.enabled
            && is_none station.deleted_at
            && (snapshot.station_id == station.station_id)
            && lets_publish (freshness_check snapshot policy now).status
            && lets_publish (drive_check casefold snapshot policy now).status
            && b)
          checks
      ∙ sym (preflight_conjunction casefold station snapshot rules policy now)
