-- ===== src/Exposure/Grants.antt =====
-- exposure_gateway.py: the grants over a history of calls.
use cyber_hive.Exposure.Decide.{evaluate_request-Permitted}
use Prim.Native.String.{◌++◌ as str_append}
use cyber_hive.Prelude.{
  Bool-cases, Option-cases, ◌==◌, nat_eq, string_eq, All, mem, ℕ, ◌+◌, ◌*◌, ◌≤◌, ◌<◌, String, ◌≡◌,
  refl, ◌≢◌, ◌↔◌, inl, inr, true, false, none, some, List, [], ◌∷◌, arith, eq_iff,
}
use cyber_hive.Prelude.Dict.{
  Dict, get, Each, Each-get, Each-put, Each-map, Distinct, Each-missing, Each-update,
}
use cyber_hive.Exposure.{
  second, day, ExposureRequest, ExposureGrant, is_active, evaluate_request, ExposureGateway,
  new_grant, create_grant, access_denial, audit_grant, can_access, revoke, drop_inactive,
  cleanup_expired, Call, creates, accesses, revokes, cleans, step, run,
}
use cyber_hive.Inventory.{InventoryItem}

-- What a grant must be to give access.
pub record Gives (grant : ExposureGrant) (subject permission : String) (now : ℕ) : Type 0 where
  pub live : grant.revoked ≡ false
  pub in_time : now < grant.expires_at
  pub subject_matches : grant.subject ≡ subject
  pub in_scope : mem permission grant.permissions ≡ true

access_denial-Gives :
    (grant : ExposureGrant) (subject permission : String) (now : ℕ)
    → (access_denial (some grant) subject permission now ≡ none)
      ↔ Gives grant subject permission now
unfolding access_denial
access_denial-Gives grant subject permission now = (
  λ h. record {
    live = ground arith;
    in_time = ground arith;
    subject_matches = (eq_iff grant.subject subject).0 (ground arith);
    in_scope = ground arith;
  },
  λ v.
      ground
        (arith, v.live, v.in_time, v.in_scope, (eq_iff grant.subject subject).1 v.subject_matches),
)

can_access-access_denial :
    (g : ExposureGateway) (id subject permission : String) (now : ℕ)
    → (can_access g id subject permission now).1
      ≡ access_denial (get id g.grants) subject permission now
unfolding can_access
can_access-access_denial g id subject permission now =
    elim (Option-cases (access_denial (get id g.grants) subject permission now)) [
      | inl e ↦ rw (e, can_access)
      | inr (why, e) ↦ rw (e, can_access)
    ]

-- `can_access` allows exactly when the grant is there, is not revoked, has not expired, names the
-- subject and holds the permission.
pub can_access-Gives :
    (g : ExposureGateway) (id subject permission : String) (now : ℕ)
    → ((can_access g id subject permission now).1 ≡ none) ↔ (
        (grant : ExposureGrant) × (get id g.grants ≡ some grant)
        × Gives grant subject permission now)
can_access-Gives g id subject permission now =
    rw can_access-access_denial (elim (Option-cases (get id g.grants)) [
      | inl e ↦ ((λ h. unfold access_denial in cc (rw e at h)), (λ t. cc (t.1, e)))
      | inr (grant, e) ↦ (
        (λ h. (grant, e, (access_denial-Gives grant subject permission now).0 (rw e at h))),
        (λ t. rw t.1 ((access_denial-Gives t.0 subject permission now).1 t.2)),
      )
    ])

-- A grant of this name made by none of the calls.
abbrev pub NotCreated : String → List Call → Type 0
NotCreated id [] = Unit
NotCreated id (creates request token now ∷ cs) = (str_append "exp_" token ≢ id) × NotCreated id cs
NotCreated id (_ ∷ cs) = NotCreated id cs

-- the grant that the call makes, if its request is allowed, satisfies `P`
abbrev pub Makes : (String → ExposureGrant → Type 0) → Call → Type 0
Makes P (creates request token now) =
    (item : InventoryItem)
    → evaluate_request request item ≡ none
    → P (new_grant request token now).id (new_grant request token now)
Makes P _ = Unit

-- Every item satisfies `P`, and each way to change one keeps it.
module _ (P : String → ExposureGrant → Type 0)
    (audited : (k : String) (grant : ExposureGrant) (lines : List String)
      → P k grant
      → P k (record grant { audit = lines }))
    (withdrawn : (k : String) (grant : ExposureGrant)
      → P k grant
      → P k (record grant { revoked = true })) where
  Each-drop_inactive :
      (d : Dict String ExposureGrant) (now : ℕ) → Each P d → Each P (drop_inactive d now)
  unfolding drop_inactive
  Each-drop_inactive [] now h = tt
  Each-drop_inactive ((k, grant) ∷ d) now h = elim (Bool-cases (is_active grant now)) [
    | inl e ↦ rw e (h.0, Each-drop_inactive d now h.1)
    | inr e ↦ rw e (Each-drop_inactive d now h.1)
  ]

  Each-audit_grant :
      (g : ExposureGateway) (id line : String)
      → Each P g.grants
      → Each P (audit_grant g id line).grants
  unfolding audit_grant
  Each-audit_grant g id line h = elim (Option-cases (get id g.grants)) [
    | inl e ↦ rw (e, audit_grant) h
    | inr (grant, e) ↦
        rw (e, audit_grant)
          (Each-put P id _ g.grants h (audited id grant _ (Each-get P id grant g.grants h e)))
  ]

  Each-revoke :
      (g : ExposureGateway) (id reason : String)
      → Each P g.grants
      → Each P (revoke g id reason).grants
  unfolding revoke
  Each-revoke g id reason h = elim (Option-cases (get id g.grants)) [
    | inl e ↦ rw (e, revoke) h
    | inr (grant, e) ↦
        rw (e, revoke)
          (Each-put P id _ g.grants h (
            audited id (record grant { revoked = true }) _
              (withdrawn id grant (Each-get P id grant g.grants h e))))
  ]

  Each-can_access :
      (g : ExposureGateway) (id subject permission : String) (now : ℕ)
      → Each P g.grants
      → Each P (can_access g id subject permission now).0.grants
  unfolding can_access
  Each-can_access g id subject permission now h =
      elim (Option-cases (access_denial (get id g.grants) subject permission now)) [
        | inl e ↦ rw (e, can_access) (Each-audit_grant g id _ h)
        | inr (reason, e) ↦ rw (e, can_access) h
      ]

  Each-create_grant :
      (g : ExposureGateway) (request : ExposureRequest) (token : String) (now : ℕ)
      → Makes P (creates request token now)
      → Each P g.grants
      → Each P (create_grant g request token now).0.grants
  unfolding create_grant
  Each-create_grant g request token now made h =
      elim (Option-cases (get request.resource_id g.inventory)) [
        | inl e ↦ rw (e, create_grant) h
        | inr (item, e) ↦ elim (Option-cases (evaluate_request request item)) [
          | inl granted ↦
              rw (e, create_grant, granted) (Each-put P _ _ g.grants h (made item granted))
          | inr (why, refused) ↦ rw (e, create_grant, refused) h
        ]
      ]

  Each-step :
      (g : ExposureGateway) (c : Call) → Makes P c → Each P g.grants → Each P (step g c).grants
  unfolding step cleanup_expired
  Each-step g (creates request token now) made h = Each-create_grant g request token now made h
  Each-step g (accesses id subject permission now) made h =
      Each-can_access g id subject permission now h
  Each-step g (revokes id reason) made h = Each-revoke g id reason h
  Each-step g (cleans now) made h = Each-drop_inactive g.grants now h

  Each-run :
      (g : ExposureGateway) (cs : List Call)
      → All (Makes P) cs
      → Each P g.grants
      → Each P (run g cs).grants
  unfolding run
  Each-run g [] made h = h
  Each-run g (c ∷ cs) made h = Each-run (step g c) cs made.1 (Each-step g c made.0 h)

-- A grant lives at most a day from its creation, and never opens the device itself.
pub record Bounded (grant : ExposureGrant) : Type 0 where
  pub lifetime : grant.expires_at ≤ grant.created_at + second * day
  pub indirect : grant.direct_device_access ≡ false

Makes-Bounded : (cs : List Call) → All (Makes (λ id grant. Bounded grant)) cs
unfolding new_grant
Makes-Bounded [] = tt
Makes-Bounded (creates request token now ∷ cs) = (
  (λ item granted.
      let within = ((evaluate_request-Permitted request item).0 granted).ttl_limit in
      record { lifetime = omega (arith, within); indirect = refl }),
  Makes-Bounded cs,
)
Makes-Bounded (accesses id subject permission now ∷ cs) = (tt, Makes-Bounded cs)
Makes-Bounded (revokes id reason ∷ cs) = (tt, Makes-Bounded cs)
Makes-Bounded (cleans now ∷ cs) = (tt, Makes-Bounded cs)

-- From a gateway with no grants, whatever is asked of it: access that `can_access` allows rests on a
-- grant that was created at most a day ago and that does not open the device itself.
pub run-Bounded :
    (g : ExposureGateway) (cs : List Call) (id subject permission : String) (now : ℕ)
    → g.grants ≡ []
    → (can_access (run g cs) id subject permission now).1 ≡ none
    → (grant : ExposureGrant) × (get id (run g cs).grants ≡ some grant)
      × (now < grant.created_at + second * day)
      × (grant.direct_device_access ≡ false)
run-Bounded g cs id subject permission now start granted =
    let (grant, found, v) = (can_access-Gives (run g cs) id subject permission now).0 granted in
    let b =
      Each-get (λ id grant. Bounded grant) id grant (run g cs).grants
        (Each-run (λ id grant. Bounded grant)
          (λ k grant lines b. record { lifetime = b.lifetime; indirect = b.indirect })
          (λ k grant b. record { lifetime = b.lifetime; indirect = b.indirect }) g cs
          (Makes-Bounded cs) (rw start tt))
        found in
    (grant, found, omega (arith, b.lifetime, v.in_time), b.indirect)

-- A grant of this name is revoked.
abbrev pub Withdrawn : String → String → ExposureGrant → Type 0
Withdrawn id k grant = k ≡ id → grant.revoked ≡ true

Makes-Withdrawn : (id : String) (cs : List Call) → NotCreated id cs → All (Makes (Withdrawn id)) cs
unfolding new_grant
Makes-Withdrawn id [] h = tt
Makes-Withdrawn id (creates request token now ∷ cs) h =
    ((λ item granted same. absurd (h.0 same)), Makes-Withdrawn id cs h.1)
Makes-Withdrawn id (accesses _ subject permission now ∷ cs) h = (tt, Makes-Withdrawn id cs h)
Makes-Withdrawn id (revokes _ reason ∷ cs) h = (tt, Makes-Withdrawn id cs h)
Makes-Withdrawn id (cleans now ∷ cs) h = (tt, Makes-Withdrawn id cs h)

revoke-Withdrawn :
    (g : ExposureGateway) (id reason : String)
    → Distinct g.grants
    → Each (Withdrawn id) (revoke g id reason).grants
unfolding revoke
revoke-Withdrawn g id reason u = elim (Option-cases (get id g.grants)) [
  | inl e ↦
      rw (e, revoke)
        (Each-map (λ j v. (j == id) ≡ false) (Withdrawn id)
          (λ j v other same. cc (other, (eq_iff j id).1 same)) g.grants
          (Each-missing id g.grants e))
  | inr (grant, e) ↦
      rw (e, revoke)
        (Each-update id _ g.grants u e {P = Withdrawn id} (λ same. refl)
          (λ j v other same. cc (other, (eq_iff j id).1 same)))
]

-- In a dictionary, whose keys are distinct, a revoked grant gives no access ever again, to anybody:
-- not after any further calls that create no grant under the same id, cleaning included.
pub run-Withdrawn :
    (g : ExposureGateway) (cs : List Call) (id reason subject permission : String) (now : ℕ)
    → Distinct g.grants
    → NotCreated id cs
    → (can_access (run (revoke g id reason) cs) id subject permission now).1 ≢ none
run-Withdrawn g cs id reason subject permission now u h granted =
    let after = run (revoke g id reason) cs in
    let (grant, found, v) = (can_access-Gives after id subject permission now).0 granted in
    let gone =
      Each-get (Withdrawn id) id grant after.grants
        (Each-run (Withdrawn id) (λ k grant lines b same. b same) (λ k grant b same. refl)
          (revoke g id reason) cs (Makes-Withdrawn id cs h) (revoke-Withdrawn g id reason u))
        found refl in
    cc (v.live, gone)
