-- ===== src/Signing/Core.antt =====
-- The class `SignerCore` of packages/identity/src/signing/core.ts: its own state and the calls that
-- only change that. The requests run in the children.
pub mod World
pub mod Ports
pub mod Gates
pub mod Execute
pub mod Authenticate
pub mod Prompt
pub mod Run
pub mod Handle
pub mod Batch
pub mod Quiet
pub mod Yields
pub mod Lawful
pub mod Denials
pub mod Records
pub mod Revocations
pub mod Remembers
mod Samples
mod Examples
use nostr_wot_sdk.Prelude.{
  ℕ, zero, suc, ◌+◌, Bool, true, false, not, ◌&&◌, ◌||◌, Option, none, some, List, [], ◌∷◌, Text,
  text, text_eq, ◌==◌, if◌then◌else◌, keep, put, any, values, ltb,
}
use nostr_wot_sdk.Signing.Queue.{Queue, Code, Tracked}
use nostr_wot_sdk.Signing.Queue
use nostr_wot_sdk.Signing.Requests.{canonical_origin_key, same_site}

pub record Cooldown : Type 0 where
  pub expires_at : ℕ
  pub account_id : Text

pub record Revocation : Type 0 where
  pub serial : ℕ
  pub reason : Text

pub record Core : Type 0 where
  pub cooldowns : List (Text × Cooldown)
  pub revocations : List (Text × Revocation)
  pub revocation_serial : ℕ
  pub disposed : Bool
  pub queue : Queue

-- `GET_PUBLIC_KEY_COOLDOWN_MS`
abbrev pub get_public_key_cooldown_ms : ℕ
get_public_key_cooldown_ms = 60000

-- The state that the constructor leaves.
unfoldable pub create : Core
create = record {
  cooldowns = [];
  revocations = [];
  revocation_serial = 0;
  disposed = false;
  queue = Queue.create none none none;
}

unfoldable pub dispose : Core → Core
dispose core = record core {
  disposed = true;
  cooldowns = [];
  revocations = [];
  queue = Queue.dispose core.queue;
}

abbrev reject_for_account : Option Text → Option Text → Queue → Queue
reject_for_account none next q = q
reject_for_account (some previous) none q =
    (Queue.reject_pending_for_account q previous (text "Account switched")).0
reject_for_account (some previous) (some next) q =
    if previous == next
    then q
    else (Queue.reject_pending_for_account q previous (text "Account switched")).0

unfoldable pub on_active_account_changed : Core → Option Text → Option Text → Core
on_active_account_changed core previous next = record core {
  cooldowns = [];
  queue = reject_for_account previous next core.queue;
}

unfoldable pub clear_cooldown : Core → Text → Core
clear_cooldown core origin = record core {
  cooldowns = keep (λ entry. not (same_site entry.0 (canonical_origin_key origin))) core.cooldowns;
}

-- The origins of the pending entries, each once, in the order of the entries.
unfoldable pub origins_of : List Text → List Tracked → List Text
origins_of seen [] = []
origins_of seen (t ∷ ts) =
    if any (λ o. o == t.entry.origin) seen
    then origins_of seen ts
    else t.entry.origin ∷ origins_of (t.entry.origin ∷ seen) ts

-- The loop of `revokeOrigin` over them.
unfoldable pub revoke_all : List Text → Text → Text → Queue → Queue × ℕ
revoke_all [] target reason q = (q, 0)
revoke_all (key ∷ keys) target reason q =
    if same_site key target
    then (let (next, n) = Queue.reject_pending_for_origin q key reason in
        let (last, m) = revoke_all keys target reason next in (last, n + m))
    else revoke_all keys target reason q

unfoldable pub revoke_origin : Core → Text → Text → Core × ℕ
revoke_origin core origin reason =
    let target = canonical_origin_key origin in
    let cleared = clear_cooldown core target in
    let (queue, rejected) =
      revoke_all (origins_of [] (values core.queue.entries)) target reason core.queue in
    (
      record cleared {
        revocations =
            put target (record { serial = suc core.revocation_serial; reason = reason })
              core.revocations;
        revocation_serial = suc core.revocation_serial;
        queue = queue;
      },
      rejected,
    )

-- Whether a pass over the revocations finds one of the site that is newer than the serial.
unfoldable pub is_revoked_since : ℕ → Text → List (Text × Revocation) → Bool
is_revoked_since before origin_key [] = false
is_revoked_since before origin_key ((key, r) ∷ rest) =
    (ltb before r.serial && same_site key origin_key) || is_revoked_since before origin_key rest
