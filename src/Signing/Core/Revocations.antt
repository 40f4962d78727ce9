-- ===== src/Signing/Core/Revocations.antt =====
-- Revocations and cooldowns of core.ts: what `revokeOrigin` and `clearCooldown` leave for the requests
-- that run or come later.
use nostr_wot_sdk.Prelude.{
  ℕ, suc, ◌≤◌, ◌<◌, ◌≡◌, refl, Bool, true, not, none, List, [], ◌∷◌, Text, text_eq, ◌==◌, ==_iff,
  arith, put, lookup, keep, Bool-cases, inl, inr, subst, sym,
}
use nostr_wot_sdk.Signing.Requests.{
  SafeAccount, get_public_key, params_method, canonical_origin_key, same_site,
}
use nostr_wot_sdk.Signing.Core.{
  Core, Cooldown, Revocation, revoke_origin, clear_cooldown, is_revoked_since,
}
use nostr_wot_sdk.Signing.Core.World.{World, ok, gets, pure, ◌>>=◌}
use nostr_wot_sdk.Signing.Core.Ports.{Ports}
use nostr_wot_sdk.Permissions.Key.{ask}
use nostr_wot_sdk.Signing.Core.Gates.{needs_prompt, cooled}
use nostr_wot_sdk.Signing.Core.Prompt.{must_ask}

-- No revocation is newer than the counter.
abbrev pub Serials : ℕ → List (Text × Revocation) → Type 0
Serials n [] = Unit {0}
Serials n ((key, r) ∷ rest) = (r.serial ≤ n) × Serials n rest

Serials-suc : (n : ℕ) (rs : List (Text × Revocation)) → Serials n rs → Serials (suc n) rs
Serials-suc n [] h = tt
Serials-suc n ((key, r) ∷ rest) h = (omega (arith, h.0), Serials-suc n rest h.1)

module _ (n : ℕ) (target : Text) (r : Revocation) where
  Serials-put :
      (rs : List (Text × Revocation))
      → Serials n rs
      → r.serial ≤ suc n
      → Serials (suc n) (put target r rs)
  unfolding put
  Serials-put [] h le = (le, tt)
  Serials-put ((key, s) ∷ rest) h le = elim (Bool-cases (key == target)) [
    | inl hit ↦ rw (hit, put) (le, Serials-suc n rest h.1)
    | inr miss ↦ rw (miss, put) (omega (arith, h.0), Serials-put rest h.1 le)
  ]

  is_revoked_since-put :
      (before : ℕ) (origin_key : Text) (rs : List (Text × Revocation))
      → before < r.serial
      → same_site target origin_key ≡ true
      → is_revoked_since before origin_key (put target r rs) ≡ true
  unfolding put is_revoked_since
  is_revoked_since-put before k [] lt site = ground (arith, lt, site)
  is_revoked_since-put before k ((key, s) ∷ rest) lt site = elim (Bool-cases (key == target)) [
    | inl hit ↦
        let here : same_site key k ≡ true =
          subst (λ (x : Text). same_site x k ≡ true) (sym ((==_iff key target).0 hit)) site in
        ground (arith, lt, here, hit)
    | inr miss ↦ ground (arith, miss, is_revoked_since-put before k rest lt site)
  ]

  is_revoked_since-put_later :
      (before : ℕ) (origin_key : Text) (rs : List (Text × Revocation))
      → Serials n rs
      → n < r.serial
      → is_revoked_since before origin_key rs ≡ true
      → is_revoked_since before origin_key (put target r rs) ≡ true
  unfolding put is_revoked_since
  is_revoked_since-put_later before k [] h lt e = absurd (ground (arith, e))
  is_revoked_since-put_later before k ((key, s) ∷ rest) h lt e = elim (Bool-cases (key == target)) [
    | inl hit ↦ ground (arith, hit, e, h.0, lt)
    | inr miss ↦ ground (arith, miss, e, is_revoked_since-put_later before k rest h.1 lt)
  ]

abbrev pub Valid : Core → Type 0
Valid core = Serials core.revocation_serial core.revocations

revoke_origin-Valid :
    (core : Core) (origin reason : Text) → Valid core → Valid (revoke_origin core origin reason).0
unfolding revoke_origin clear_cooldown
revoke_origin-Valid core origin reason v =
    Serials-put core.revocation_serial (canonical_origin_key origin) _ core.revocations v
      (omega arith)

revoke_origin-still :
    (before : ℕ) (k origin reason : Text) (core : Core)
    → Valid core
    → is_revoked_since before k core.revocations ≡ true
    → is_revoked_since before k (revoke_origin core origin reason).0.revocations ≡ true
unfolding revoke_origin clear_cooldown
revoke_origin-still before k origin reason core v e =
    is_revoked_since-put_later core.revocation_serial (canonical_origin_key origin) _ before k
      core.revocations v (omega arith) e

-- Later revocations, of any origins.
pub revoke_each : Core → List (Text × Text) → Core
revoke_each core [] = core
revoke_each core ((origin, reason) ∷ rest) = revoke_each (revoke_origin core origin reason).0 rest

revoke_each-revoked :
    (before : ℕ) (origin_key : Text) (later : List (Text × Text)) (core : Core)
    → Valid core
    → is_revoked_since before origin_key core.revocations ≡ true
    → is_revoked_since before origin_key (revoke_each core later).revocations ≡ true
unfolding revoke_each
revoke_each-revoked before k [] core v e = e
revoke_each-revoked before k ((origin, reason) ∷ rest) core v e =
    revoke_each-revoked before k rest _ (revoke_origin-Valid core origin reason v)
      (revoke_origin-still before k origin reason core v e)

-- Where no stored serial is above the counter, a request that began before an origin was revoked finds
-- itself revoked from then on, after any later revocations too, if its origin is of the same site.
pub revoke_origin-revoked :
    (core : Core) (origin reason origin_key : Text) (before : ℕ) (later : List (Text × Text))
    → Valid core
    → before ≤ core.revocation_serial
    → same_site (canonical_origin_key origin) origin_key ≡ true
    → is_revoked_since before origin_key
        (revoke_each (revoke_origin core origin reason).0 later).revocations
      ≡ true
unfolding revoke_origin clear_cooldown
revoke_origin-revoked core origin reason origin_key before later v le site =
    revoke_each-revoked before origin_key later _ (revoke_origin-Valid core origin reason v) (
      is_revoked_since-put core.revocation_serial (canonical_origin_key origin) _ before origin_key
        core.revocations (omega (arith, le)) site)

module _ (site : Text → Bool) where
  lookup-keep :
      (key : Text) (cs : List (Text × Cooldown))
      → site key ≡ true
      → lookup key (keep (λ entry. not (site entry.0)) cs) ≡ none
  unfolding lookup
  lookup-keep key [] h = refl
  lookup-keep key ((j, c) ∷ rest) h = elim (Bool-cases (site j)) [
    | inl drops ↦ rw (drops) (lookup-keep key rest h)
    | inr stays ↦ elim (Bool-cases (j == key)) [
      | inl hit ↦
          let here : site j ≡ true =
            subst (λ (x : Text). site x ≡ true) (sym ((==_iff j key).0 hit)) h in
          absurd (ground (arith, stays, here))
      | inr miss ↦ ground (arith, stays, miss, lookup-keep key rest h)
    ]
  ]

module _ {E : Type 0} (p : Ports E) where
  -- Once the cooldown of an origin is cleared, a request of the same site for the public key whose
  -- rule asks needs a prompt.
  pub must_ask-clear_cooldown :
      (core : Core) (origin origin_key : Text) (account : SafeAccount) (w : World E)
      → same_site origin_key (canonical_origin_key origin) ≡ true
      → (must_ask p ask get_public_key origin_key account none
          (record w { core = clear_cooldown core origin })).0
        ≡ ok true
  unfolding must_ask needs_prompt ◌>>=◌ gets clear_cooldown cooled pure params_method
  must_ask-clear_cooldown core origin k account w site =
      rw (lookup-keep (λ key. same_site key (canonical_origin_key origin)) k core.cooldowns site)
