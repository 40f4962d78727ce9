-- ===== src/Permissions/Store/Removal.antt =====
-- What `clearAllForOrigin` of packages/identity/src/permissions/store.ts removes and what it leaves.
use nostr_wot_sdk.Prelude.{◌≡◌, none, some, List, [], ◌∷◌, Text, text_eq, keep, not, lookup, ℕ}
use nostr_wot_sdk.Permissions.Scope.{site_scopes, storage_label}
use nostr_wot_sdk.Permissions.Host.{PermissionMap, Disk, Host}
use nostr_wot_sdk.Permissions.Tree.{drop_scopes}
use nostr_wot_sdk.Permissions.Grants.{GrantFilter, filter_matches}
use nostr_wot_sdk.Permissions.Store.{stored_tree}
use nostr_wot_sdk.Permissions.Store.Coherence.Methods

-- The tree has none of the labels.
abbrev Absent : PermissionMap → List Text → Type 0
Absent t [] = Unit
Absent t (s ∷ scopes) = (lookup s t ≡ none) × Absent t scopes

-- The filter of the grants that go.
abbrev pub origin_filter : Text → GrantFilter
origin_filter origin = record { id = none; account_id = none; origin = some (storage_label origin) }

-- The store once a site is cleared.
abbrev cleared : Text → ℕ → Disk → Disk
cleared origin left d = record d {
  permissions = some (drop_scopes (site_scopes origin) (stored_tree d));
  authentication_grants =
      keep (λ g. not (filter_matches (origin_filter origin) g)) d.authentication_grants;
  writes = left;
}
