-- ===== src/Store/Tokens/OneTime.antt =====
-- A provisioning token is accepted once (repository/provisioning_tokens.py).
use true_nas_controller.Common.{
  find-update_if, ℕ, ◌≡◌, refl, none, some, arith, Text, text_eq, ◌==◌, ==-self, Bool-cases,
  Option-cases, inl, inr,
}
use true_nas_controller.Domain.Token.{ProvisioningToken, provisioning_usable}
use true_nas_controller.Store.Session.{Session, ok}
use true_nas_controller.Store.Tokens.{find_provisioning, consume_provisioning}

-- Once a token has been consumed, consuming the same secret again in the state that it left gives
-- nothing, at any time.
pub consume_once :
    (token_hash : Text) (now later : ℕ) (s s' : Session) (token : ProvisioningToken)
    → consume_provisioning token_hash now s ≡ (ok (some token), s')
    → consume_provisioning token_hash later s' ≡ (ok none, s')
unfolding consume_provisioning provisioning_usable
consume_once token_hash now later s s' token h =
    elim (Option-cases (find_provisioning token_hash s.working)) [
      | inl e ↦ ground arith
      | inr (t, e) ↦ elim (Bool-cases (provisioning_usable t now)) [
        | inl u ↦
            let again =
              find-update_if (λ (r : ProvisioningToken). text_eq r.token_hash token_hash)
                (λ (r : ProvisioningToken). r.id == t.id)
                (λ (r : ProvisioningToken). record r { used_at = some now })
                s.working.provisioning_tokens t (λ y. refl) e (==-self t.id) in
            ground (arith, again)
        | inr u ↦ ground arith
      ]
    ]
