-- ===== src/Agent/Enrollment.antt =====
-- agent/enrollment.py: the agent's credential. The store and the network are parameters.
use true_nas_controller.Common.{
  ℕ, ◌≡◌, refl, sym, ap, ◌∙◌, Bool, true, false, Option, none, some, [], ◌∷◌, Text, is_empty,
  if◌then◌else◌,
}
use true_nas_controller.Agent.Heartbeat.{Reply, done, raised, other}

-- `EnrollmentResponse`
pub record EnrollmentResponse : Type 0 where
  pub station_id : ℕ
  pub credential : Text

-- `CredentialStore` and `EnrollmentGateway`, for one request.
pub record Registration (World : Type 0) : Type 0 where
  pub load : World → Reply (Option Text) × World
  pub save : Text → World → Reply (Unit {0}) × World
  pub enroll : World → Reply EnrollmentResponse × World

module _ {World : Type 0} (around : Registration World) where
  abbrev saved : Text → Reply (Unit {0}) × World → Reply Text × World
  saved credential (done _, w) = (done credential, w)
  saved credential (raised e, w) = (raised e, w)

  abbrev enrolled : Reply EnrollmentResponse × World → Reply Text × World
  enrolled (raised e, w) = (raised e, w)
  enrolled (done response, w) =
      if is_empty response.credential
      then (raised other, w)
      else saved response.credential (around.save response.credential w)

  abbrev loaded : Reply (Option Text) × World → Reply Text × World
  loaded (raised e, w) = (raised e, w)
  loaded (done (some (c ∷ s)), w) = (done (c ∷ s), w)
  loaded (done _, w) = enrolled (around.enroll w)

  -- `EnrollmentCoordinator.ensure_credential`
  unfoldable pub ensure_credential : World → Reply Text × World
  ensure_credential w = loaded (around.load w)

  -- A store that reads without a change, and gives back what was saved in it.
  pub record StoreLaws : Type 0 where
    pub reads : (w : World) → (around.load w).1 ≡ w
    pub read_back :
        (credential : Text) (w w' : World)
        → around.save credential w ≡ (done tt, w')
        → (around.load w').0 ≡ done (some credential)

paired : {A B : Type 0} (x : A × B) (a : A) (b : B) → x.0 ≡ a → x.1 ≡ b → x ≡ (a, b)
paired (x, y) a b h k = cc

module _ {World : Type 0} (around : Registration World) (laws : StoreLaws around) where
  -- A credential that the store holds is returned, and nothing changes.
  held :
      (credential : Text) (w : World)
      → is_empty credential ≡ false
      → (around.load w).0 ≡ done (some credential)
      → ensure_credential around w ≡ (done credential, w)
  unfolding ensure_credential
  held [] w n h = cc
  held (c ∷ s) w n h =
      ap (loaded around) (paired (around.load w) (done (some (c ∷ s))) w h (laws.reads w))

  kept :
      (credential : Text) (r : Reply (Unit {0}) × World) (w w' : World) (c : Text)
      → is_empty credential ≡ false
      → around.save credential w ≡ r
      → saved around credential r ≡ (done c, w')
      → ensure_credential around w' ≡ (done c, w')
  kept credential (done _, v) w w' c n e h =
      let x : v ≡ w' = ap (λ (p : Reply Text × World). p.1) h in
      let y : credential ≡ c = cc in
      let z =
        held credential w' n (laws.read_back credential w w' (e ∙ ap (λ v. (done tt, v)) x)) in
      z ∙ ap (λ c. (done c, w')) y
  kept credential (raised _, v) w w' c n e h = cc

  answered :
      (credential : Text) (empty : Bool) (v w' : World) (c : Text)
      → is_empty credential ≡ empty
      → (if empty then (raised other, v) else saved around credential (around.save credential v))
        ≡ (done c, w')
      → ensure_credential around w' ≡ (done c, w')
  answered credential true v w' c e h = cc
  answered credential false v w' c e h = kept credential (around.save credential v) v w' c e refl h

  from_server :
      (x : Reply EnrollmentResponse × World) (w' : World) (c : Text)
      → enrolled around x ≡ (done c, w')
      → ensure_credential around w' ≡ (done c, w')
  from_server (raised _, v) w' c h = cc
  from_server (done response, v) w' c h =
      answered response.credential (is_empty response.credential) v w' c refl h

  from_load :
      (x : Reply (Option Text) × World) (w w' : World) (c : Text)
      → around.load w ≡ x
      → loaded around x ≡ (done c, w')
      → ensure_credential around w' ≡ (done c, w')
  from_load (raised _, v) w w' c e h = cc
  from_load (done none, v) w w' c e h = from_server (around.enroll v) w' c h
  from_load (done (some []), v) w w' c e h = from_server (around.enroll v) w' c h
  from_load (done (some (a ∷ s)), v) w w' c e h =
      let same : v ≡ w = sym (ap (λ (p : Reply (Option Text) × World). p.1) e) ∙ laws.reads w in
      let end : v ≡ w' = ap (λ (p : Reply Text × World). p.1) h in
      let credential : a ∷ s ≡ c = cc in
      let again = held (a ∷ s) w refl (ap (λ (p : Reply (Option Text) × World). p.0) e) in
      let x : w ≡ w' = sym same ∙ end in
      sym (ap (λ w. ensure_credential around w) x)
      ∙ again
      ∙ ap (λ w. (done (a ∷ s), w)) x
      ∙ ap (λ c. (done c, w')) credential

  -- The agent enrolls once: after a credential has been obtained, whether from the store or from the
  -- controller, asking again gives the same credential and changes nothing, if the store reads back what
  -- was saved.
  pub ensure_credential_once :
      (w w' : World) (c : Text)
      → ensure_credential around w ≡ (done c, w')
      → ensure_credential around w' ≡ (done c, w')
  unfolding ensure_credential
  ensure_credential_once w w' c h = from_load (around.load w) w w' c refl h
