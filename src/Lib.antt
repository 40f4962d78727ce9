-- ===== src/Lib.antt =====
-- A verification library of the nostr-wot SDK: the signer core with the parts that decide who may use
-- a signer, and the cache that bounds the relay hub.
--
-- The program. A host (a browser extension, a phone) holds keys; sites ask it to sign or decrypt.
-- `Permissions` (packages/identity/src/permissions/store.ts) keeps a tree of rules, by site, by bucket
-- (an account, or the one shared by all) and by permission key. A check reads the layers of the tree
-- for the site (scope.ts says which labels a site reads, and how an origin is spelled), lays them over
-- one another, and asks key.ts, which consults the keys of a method and event kind, most specific
-- first. Credentials for relays and services are kept apart from the rules
-- (authenticationGrants.ts). `SignerCore` (packages/identity/src/signing/core.ts) takes a request through
-- these, the prompt, the vault and the key. A request that must wait is an entry of the `ApprovalQueue`
-- (packages/identity/src/signing/queue.ts). The relay hub (packages/sdk/src/relay/hub) keeps its caches in the
-- `BoundedMap` of bounded-map.ts, and counts in `AuthLeases` (auth-leases.ts) who needs a relay to
-- know an identity.
--
-- The model.
--   Prelude            shared helpers: Boolean tests, lists, association lists for JavaScript maps and
--                      objects, text as a list of UTF-16 units, integers with their decimal form.
--   Relay.BoundedMap   bounded-map.ts: the map, one function per method; Bounds has the invariant,
--                      Contents what `set`, `clear` and `sweep` do, Runs the histories of calls.
--   Relay.BoundedSet   bounded-map.ts: the set of recent ids; Recent says what an addition leaves.
--   Relay.AuthLeases   auth-leases.ts: who wants an authenticated connection; Counts has the theorems.
--   Permissions.Key    key.ts: permissionKey, consultedKeys, resolveDetailed and the blanket query;
--                      Cascade and Isolation have the theorems.
--   Permissions.Scope  scope.ts on text: canonicalHttpOrigin, the IPv4 and IPv6 forms, siteScopes.
--   Permissions.Host   the store as a record with one field for each storage key of constants.ts, the
--                      caches of `Permissions`, the errors, and the state-and-error monad that the
--                      methods are written in.
--   Permissions.Tree   the edits and layers of the tree, for scope.ts and store.ts; Layers says what
--                      the layers hold once a rule is set.
--   Permissions.Grants authenticationGrants.ts: governing, save, revoke, decisionFor.
--   Permissions.Authentication  authentication.ts: who asks, where a credential leads, and which events
--                      are accepted as a request for one; Accepts says what an accepted event holds.
--   Permissions.Store  store.ts: the methods of `Permissions`; Calls has them as calls in a sequence,
--                      Coherence that caches are invisible, Saves, Guards, Answers, Migration and Removal what
--                      the methods do.
--   Permissions.Migrations  three migrations of store.ts: forward to ask, direct-message kinds, and the
--                      step to inheritance; Folding says what becomes of the direct-message rules.
--   Signing.Queue      packages/identity/src/signing/queue.ts: the queue of requests that wait for a
--                      person, a lock or a remote signer. Bounds has the limits, Tickets and Ends the
--                      promises, Disposal the shutdown.
--   Signing.Requests   types.ts, pq.ts and the pure functions of core.ts: what the signer is asked.
--   Signing.RemoteEvent  remoteEvent.ts: when a remote signer's event is accepted.
--   Signing.Core       core.ts: `SignerCore` and the calls that change it. World has the state and the
--                      actions of a request, Ports the ports; Gates, Execute, Authenticate, Prompt, Run
--                      and Handle are the private methods, from the checks to handle and handleSelf,
--                      and Batch is handleBatch.
--                      Quiet and Yields have the rules for actions, Lawful what the log says below a use
--                      of the key (Confirms, Approves, Clearance and Use go through the methods),
--                      Batch.Rereads and Batch.Items what a batch signs and returns, Records the activity
--                      entries, Denials the stored deny, Revocations and Remembers what the calls and
--                      the answers leave.
--
-- How it is modelled. A method is a function from the host to an outcome and a host; an error keeps
-- the writes that came before it. The store accepts a number of further writes and rejects all later
-- ones, so a theorem over all hosts covers a failure at every write. An object's properties are an
-- association list in insertion order, a number is a natural number, an event kind is a value that is
-- absent, null, not an integer, or an integer. A `BoundedMap` takes the clock's value as an argument of
-- each call and records what `onEvict` is called with. Loops run on the list they walk, and the
-- eviction loop on fuel that is the number of entries, which Bounds shows to be enough. A promise of the
-- queue is a ticket; the end of a work and the firing of a timer are events in a history, and so is a
-- call that a host makes from within `onCancel`.
--
-- A request of the signer core is an action on the core, on the state behind the ports, on its context
-- and on a log. A port is any function on the core and that state, so other calls that run during an
-- await are whatever the port does to the core, the end of a pending promise among them. The log keeps
-- what ports answered and the uses of the key; the key counts as used once its public key has been
-- compared, and a remote signer as asked just before the queue is. Sentences of errors are dropped and
-- codes kept. Keys, signatures, encryption and the derivation of post-quantum keys are ports. A request
-- begins with what schema.ts answered.
--
-- Not modelled: the lock, since calls run one after another here; two instances on one store at a
-- time; the migrations of flat trees, the one to global rules and `migrate`, which runs the others,
-- and so these are no calls of `Permissions.Store.Calls`; the logger; an `onEvict` that calls its map
-- again from within an eviction loop, and a stored value `undefined`, which `get` and `has` take for
-- absent; keys that an object inherits from its prototype; request validation (schema.ts) and the
-- checks of the signer core's constructor; the other parts of the SDK (bunker, vault, relay sockets,
-- React).
pub mod Prelude
pub mod Permissions
pub mod Relay
pub mod Signing
